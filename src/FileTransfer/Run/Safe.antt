-- ===== src/FileTransfer/Run/Safe.antt =====
-- What a file transfer leaves on disk, what it counts, and that it ends.
use mathlib.Core.Path.{subst}
use leo_one.Prelude.{
  ◌==◌, if◌then◌else◌, length, take, all, All, Bytes, bytes, ℕ, ◌+◌, ◌≤◌, ◌<◌, ◌≡◌, refl, sym, ap,
  ◌∙◌, ◌≢◌, ◌⊎◌, inl, inr, Bool, true, false, not, ◌&&◌, ◌||◌, Option, none, some, List, [], ◌∷◌,
  ◌++◌, arith,
}
use leo_one.Types.{
  uuid_str_max, workdir, file_url_max_len, verifying, LeoError, ok, err_config, err_network,
  err_tls, err_protocol, err_system, err_queue_full, err_timeout,
}
use leo_one.Protocol.{Stamp}
use leo_one.Protocol.Tree.{Cjson}
use leo_one.Pinning.{bytes_to_hex, str_case_eq}
use leo_one.FileTransfer.{Download, is_200, report_progress}
use leo_one.FileTransfer.Run.{
  effective_timeout, has_dot_dot, filename_valid, Setup, Round, Ending, Finished, give_up,
  digest_hex, download_loop, or_network, rename_part, digest_differs, verify_part, conclude,
  begin_download, fetch, prepare, run,
}
use leo_one.FileTransfer.Run.Received.{received, to_come, Holds, download_loop-Holds}
use leo_one.Conn.{Conn}
use leo_one.Url.{Target, http_parse_url}

-- A name that stays in its directory.
abbrev pub IsFileName : Bytes → Type 0
IsFileName name =
    (0 < length name)
    × (length name ≤ 254)
    × (has_dot_dot name ≡ false)
    × All (λ c. (c ≢ b'/') × (c ≢ b'\\')) name

-- Either an error and no file; or success, and under that name in the working directory a file that holds
-- what fclose left of the bytes received, whose digest is the one that was asked for, if one was.
abbrev pub IsSafeEnd : Bytes → Bytes → Bytes → Ending → Finished → Type 0
IsSafeEnd filename expected content ending f =
    ((f.code ≢ ok) × (f.placed ≡ none))
    ⊎ ((f.code ≡ ok)
        × (f.placed ≡ some (workdir ++ filename, ending.fclose content))
        × (f.final_path ≡ workdir ++ filename)
        × IsFileName filename
        × ((length expected ≡ 0)
            ⊎ (str_case_eq (bytes_to_hex (take 32 (ending.sha256 content))) expected ≡ true)))

separators_free :
    (s : Bytes)
    → all (λ c. not (c == b'/' || c == b'\\')) s ≡ true
    → All (λ c. (c ≢ b'/') × (c ≢ b'\\')) s
separators_free [] h = tt
separators_free (c ∷ s) h =
    let h' : (not (c == b'/' || c == b'\\') && all (λ x. not (x == b'/' || x == b'\\')) s) ≡ true =
      h in
    ((ground arith, ground arith), separators_free s (ground arith))

filename_valid-IsFileName : (name : Bytes) → filename_valid name ≡ true → IsFileName name
unfolding filename_valid
filename_valid-IsFileName name h =
    (ground arith, ground arith, ground arith, separators_free name (ground arith))

safe_if :
    (filename expected content : Bytes) (ending : Ending) (b : Bool) (x y : Finished)
    → (b ≡ true → IsSafeEnd filename expected content ending x)
    → (b ≡ false → IsSafeEnd filename expected content ending y)
    → IsSafeEnd filename expected content ending (if b then x else y)
safe_if filename expected content ending true x y f g = f refl
safe_if filename expected content ending false x y f g = g refl

module _ {Node : Type 0} (cj : Cjson Node) where
  or_network-error : (code : LeoError) → or_network cj code ≢ ok
  or_network-error ok = λ h. ground arith
  or_network-error err_config = λ h. ground arith
  or_network-error err_network = λ h. ground arith
  or_network-error err_tls = λ h. ground arith
  or_network-error err_protocol = λ h. ground arith
  or_network-error err_system = λ h. ground arith
  or_network-error err_queue_full = λ h. ground arith
  or_network-error err_timeout = λ h. ground arith

  rename_safe :
      (dl : Download) (filename expected : Bytes) (ending : Ending) (st : Stamp)
      → filename_valid filename ≡ true
      → digest_differs cj (digest_hex (ending.sha256 dl.content)) expected ≡ false
      → (o : Option Bytes)
      → IsSafeEnd filename expected dl.content ending (rename_part cj dl filename ending o st)
  unfolding rename_part digest_differs digest_hex
  rename_safe dl filename expected ending st h d (some err) = inl (λ e. ground arith, refl)
  rename_safe dl filename expected ending st h d none =
      inr (refl, refl, refl, filename_valid-IsFileName filename h, ground arith)

  verify_safe :
      (dl : Download) (filename expected : Bytes) (ending : Ending) (st : Stamp)
      → filename_valid filename ≡ true
      → IsSafeEnd filename expected dl.content ending
          (verify_part cj dl filename expected ending st)
  unfolding verify_part
  verify_safe dl filename expected ending st h =
      safe_if filename expected dl.content ending
        (digest_differs cj (digest_hex (ending.sha256 dl.content)) expected) _ _
        (λ _. inl (λ e. ground arith, refl))
        (λ d. rename_safe dl filename expected ending st h d ending.rename_error)

  conclude_safe :
      (dl : Download) (code : LeoError) (filename expected content : Bytes) (ending : Ending)
      (st st' : Stamp)
      → filename_valid filename ≡ true
      → (dl.has_failed ≡ false → dl.content ≡ content)
      → IsSafeEnd filename expected content ending
          (conclude cj (dl, code) filename expected ending st st')
  unfolding conclude report_progress
  conclude_safe dl code filename expected content ending st st' h same =
      safe_if filename expected content ending (dl.has_failed || not (is_200 dl.http_status)) _ _
        (λ _. inl (or_network-error code, refl))
        (λ fine.
          subst
            (λ s. IsSafeEnd filename expected s ending (
              verify_part cj (report_progress cj dl verifying none st) filename expected ending
                st'))
            (same (ground (arith, fine)))
            (verify_safe (report_progress cj dl verifying none st) filename expected ending st' h))

-- The same of every result that a run may have.
AreSafe : Bytes → Bytes → Bytes → Ending → Option Finished → Type 0
AreSafe filename expected content ending o =
    (f : Finished) → o ≡ some f → IsSafeEnd filename expected content ending f

abbrev result_or : Finished → Option Finished → Finished
result_or f none = f
result_or f (some g) = g

safe_result :
    (filename expected content : Bytes) (ending : Ending) (f : Finished)
    → IsSafeEnd filename expected content ending f
    → AreSafe filename expected content ending (some f)
unfolding AreSafe
safe_result filename expected content ending f v g e =
    let same : f ≡ g = ap (result_or f) e in rw (sym same) v

none_safe :
    (filename expected content : Bytes) (ending : Ending)
    → AreSafe filename expected content ending none
unfolding AreSafe
none_safe filename expected content ending f e = ground arith

safe_run_if :
    (filename expected content : Bytes) (ending : Ending) (b : Bool) (x y : Option Finished)
    → (b ≡ true → AreSafe filename expected content ending x)
    → (b ≡ false → AreSafe filename expected content ending y)
    → AreSafe filename expected content ending (if b then x else y)
safe_run_if filename expected content ending true x y f g = f refl
safe_run_if filename expected content ending false x y f g = g refl

module _ {Node : Type 0} (cj : Cjson Node) (filename expected : Bytes) (ending : Ending)
    (st' st'' : Stamp) (h : filename_valid filename ≡ true) where
  fetch_safe :
      (target : Target) (dl : Download) (setup : Setup) (timeout_secs : ℕ) (rounds : List Round)
      → dl.content ≡ []
      → dl.done ≡ false
      → AreSafe filename expected
          (received rounds)
          ending
          (fetch cj target dl setup filename expected timeout_secs rounds ending st' st'')
  unfolding fetch
  fetch_safe target dl setup timeout_secs rounds fresh going =
      let limited : Download = record dl { limit_secs = effective_timeout timeout_secs } in
      let all_of_it : to_come cj limited rounds ≡ received rounds =
        ap (λ s. s ++ (if dl.done then [] else received rounds)) fresh
        ∙ ap (λ b. if b then [] else received rounds) going in
      safe_run_if filename expected (received rounds) ending (not setup.context_made) _ _
        (λ _.
          safe_result filename expected (received rounds) ending _ (inl (λ e. ground arith, refl)))
        (λ _.
          safe_run_if filename expected (received rounds) ending (not setup.connected) _ _
            (λ _.
              safe_result filename expected (received rounds) ending _
                (inl (λ e. ground arith, refl)))
            (λ _. by_loop limited _ (
              subst
                (λ s. Holds cj limited s (
                  download_loop cj (setup.start_sec + effective_timeout timeout_secs) limited
                    rounds))
                all_of_it
                (download_loop-Holds cj (setup.start_sec + effective_timeout timeout_secs) limited
                  rounds))))
    where
      by_loop :
          (limited : Download) (o : Option (Download × LeoError))
          → Holds cj limited (received rounds) o
          → AreSafe filename expected (received rounds) ending (elim o [
            | none ↦ none
            | some result ↦ some (conclude cj result filename expected ending st' st'')
          ])
      by_loop limited none held = none_safe filename expected (received rounds) ending
      by_loop limited (some (d, code)) held =
          safe_result filename expected (received rounds) ending _ (
            conclude_safe cj d code filename expected (received rounds) ending st' st'' h
              (λ fine. (held fine).1))

  prepare_safe :
      (target : Target) (c : Conn) (cmd_id : Bytes) (setup : Setup) (size timeout_secs : ℕ)
      (rounds : List Round) (st : Stamp)
      → AreSafe filename expected (received rounds) ending (
          prepare cj target c cmd_id setup filename expected size timeout_secs rounds ending st st'
            st'')
  unfolding prepare
  prepare_safe target c cmd_id setup size timeout_secs rounds st =
      safe_run_if filename expected (received rounds) ending (not setup.workdir_made) _ _
        (λ _.
          safe_result filename expected (received rounds) ending _ (inl (λ e. ground arith, refl)))
        (λ _. by_open setup.open_error)
    where
      by_open :
          (o : Option Bytes)
          → AreSafe filename expected (received rounds) ending (elim o [
            | some err ↦ some (
                give_up err_system
                  (bytes "Impossible de créer '"
                    ++ (workdir ++ (take uuid_str_max cmd_id ++ (bytes ".part' : " ++ err))))
                  c)
            | none ↦
                if not setup.digest_ready
                then some (give_up err_system (bytes "Initialisation SHA-256 échouée") c)
                else fetch cj target
                    (begin_download cj c cmd_id size st)
                    setup
                    filename
                    expected
                    timeout_secs
                    rounds
                    ending
                    st'
                    st''
          ])
      by_open (some err) =
          safe_result filename expected (received rounds) ending _ (inl (λ e. ground arith, refl))
      by_open none =
          safe_run_if filename expected (received rounds) ending (not setup.digest_ready) _ _
            (λ _.
              safe_result filename expected (received rounds) ending _
                (inl (λ e. ground arith, refl)))
            (λ _.
              fetch_safe target (begin_download cj c cmd_id size st) setup timeout_secs rounds
                (unfold begin_download report_progress in refl)
                (unfold begin_download report_progress in refl))

run-AreSafe :
    {Node : Type 0} (cj : Cjson Node) (c : Conn) (cmd_id url filename expected : Bytes)
    (size timeout_secs : ℕ) (setup : Setup) (rounds : List Round) (ending : Ending)
    (st st' st'' : Stamp)
    → AreSafe filename expected
        (received rounds)
        ending
        (run cj c cmd_id url filename expected size timeout_secs setup rounds ending st st' st'')
unfolding run
run-AreSafe cj c cmd_id url filename expected size timeout_secs setup rounds ending st st' st'' =
    safe_run_if filename expected (received rounds) ending (not (filename_valid filename)) _ _
      (λ _.
        safe_result filename expected (received rounds) ending _ (inl (λ e. ground arith, refl)))
      (λ valid. by_url (http_parse_url url 256 file_url_max_len) (ground arith))
  where
    by_url :
        (o : Option Target)
        → filename_valid filename ≡ true
        → AreSafe filename expected (received rounds) ending (elim o [
          | none ↦ some (give_up err_protocol (bytes "URL de téléchargement invalide") c)
          | some target ↦
              prepare cj target c cmd_id setup filename expected size timeout_secs rounds ending st
                st' st''
        ])
    by_url none h =
        safe_result filename expected (received rounds) ending _ (inl (λ e. ground arith, refl))
    by_url (some target) h =
        prepare_safe cj filename expected ending st' st'' h target c cmd_id setup size timeout_secs
          rounds st

-- However a file transfer ends, either it reports an error and puts no file in place; or it reports
-- success and has put one file in place, in the working directory under the name asked for, which is
-- 1 to 254 bytes without a separator and without ".."; the file holds what fclose left of the bytes that
-- the server's callbacks brought, all of them and in their order, up to the round that ends the loop; and
-- if a digest was asked for then the SHA-256 of those bytes is that digest in hexadecimal.
pub run_safe :
    {Node : Type 0} (cj : Cjson Node) (c : Conn) (cmd_id url filename expected : Bytes)
    (size timeout_secs : ℕ) (setup : Setup) (rounds : List Round) (ending : Ending)
    (st st' st'' : Stamp) (f : Finished)
    → run cj c cmd_id url filename expected size timeout_secs setup rounds ending st st' st''
      ≡ some f
    → IsSafeEnd filename expected (received rounds) ending f
unfolding AreSafe
run_safe cj c cmd_id url filename expected size timeout_secs setup rounds ending st st' st'' f e =
    run-AreSafe cj c cmd_id url filename expected size timeout_secs setup rounds ending st st' st''
      f e
