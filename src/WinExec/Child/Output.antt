-- ===== src/WinExec/Child/Output.antt =====
-- agent/platform/windows/executor_win.c: what `_reader_thread` keeps of a pipe.
use leo_one.Prelude.{
  ltb, Bool-cases, length, take, take_nil, take-append_split, Bytes, ℕ, ◌-◌, ◌≡◌, refl, sym, ap,
  ◌∙◌, inl, inr, List, [], ◌∷◌, ◌++◌, append-nil, append_assoc, arith,
}
use leo_one.WinExec.Child.{keep_chunk, reader_thread}

-- What a pipe gives before a ReadFile that gives nothing.
abbrev pub given : List Bytes → Bytes
given [] = []
given ([] ∷ chunks) = []
given ((c ∷ chunk) ∷ chunks) = (c ∷ chunk) ++ given chunks

keep_chunk_by_take :
    (buf_max : ℕ) (buf chunk : Bytes)
    → keep_chunk buf_max buf chunk ≡ buf ++ take (buf_max - 1 - length buf) chunk
unfolding keep_chunk
keep_chunk_by_take buf_max buf chunk = elim (Bool-cases (ltb (length buf) (buf_max - 1))) [
  | inl room ↦ rw room refl
  | inr full ↦
      let used : buf_max - 1 - length buf ≡ 0 = ground arith in
      rw full (sym (ap (λ k. buf ++ take k chunk) used ∙ append-nil buf))
]

reader_thread-take :
    (buf_max : ℕ) (chunks : List Bytes) (t : Bytes)
    → reader_thread buf_max (take (buf_max - 1) t) chunks ≡ take (buf_max - 1) (t ++ given chunks)
unfolding reader_thread
reader_thread-take buf_max [] t = ap (take (buf_max - 1)) (sym (append-nil t))
reader_thread-take buf_max ([] ∷ chunks) t = ap (take (buf_max - 1)) (sym (append-nil t))
reader_thread-take buf_max ((c ∷ chunk) ∷ chunks) t =
    rw
      (
        keep_chunk_by_take buf_max (take (buf_max - 1) t) (c ∷ chunk),
        ← take-append_split (buf_max - 1) t (c ∷ chunk),
        reader_thread-take buf_max chunks (t ++ (c ∷ chunk)),
      )
      (ap (take (buf_max - 1)) (append_assoc t (c ∷ chunk) (given chunks)))

-- The buffer of a pipe that is read to its end holds exactly the beginning of what the pipe gave, up to
-- its size less one.
pub reader_thread_lem :
    (buf_max : ℕ) (chunks : List Bytes)
    → reader_thread buf_max [] chunks ≡ take (buf_max - 1) (given chunks)
reader_thread_lem buf_max chunks =
    ap (λ (b : Bytes). reader_thread buf_max b chunks) (sym (take_nil (buf_max - 1)))
    ∙ reader_thread-take buf_max chunks []
