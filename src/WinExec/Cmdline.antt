-- ===== src/WinExec/Cmdline.antt =====
-- agent/platform/windows/executor_win.c: `_append_quoted_arg` and `_build_cmdline`, which write an
-- argument vector into the one text that CreateProcess takes.
pub mod Whole
pub mod Reader
use leo_one.Prelude.{
  ltb, leb, ◌==◌, if◌then◌else◌, length, Bytes, ℕ, zero, suc, ◌+◌, ◌*◌, Bool, true, false, ◌&&◌,
  ◌||◌, Option, none, some, List, [], ◌∷◌, ◌++◌,
}

-- `LEO_EXEC_CMDLINE_MAX`
abbrev pub cmdline_max : ℕ
cmdline_max = 32768

-- What stands in `dest`, and `*pos`: a text that does not fit leaves `*pos` at the buffer's size.
pub record Out : Type 0 where
  pub text : Bytes
  pub pos : ℕ

-- `if (*pos < dest_sz) dest[(*pos)++] = c`
pub put : ℕ → ℕ → Out → Out
put dest_sz c o =
    if ltb o.pos dest_sz then record { text = o.text ++ c ∷ []; pos = suc o.pos } else o

pub put_times : ℕ → ℕ → ℕ → Out → Out
unfolding put
put_times dest_sz zero c o = o
put_times dest_sz (suc n) c o = put_times dest_sz n c (put dest_sz c o)

-- A byte that needs quotes around its argument.
abbrev pub is_special : ℕ → Bool
is_special c = c == b' ' || (c == 9 || c == b'"')

pub has_special : Bytes → Bool
has_special [] = false
has_special (c ∷ cs) = is_special c || has_special cs

pub needs_quotes : Bytes → Bool
unfolding has_special
needs_quotes [] = true
needs_quotes (c ∷ cs) = has_special (c ∷ cs)

-- The bytes that a turn of the loop writes for `*p`, behind that many backslashes.
pub put_escaped : ℕ → ℕ → ℕ → Out → Out
unfolding put put_times
put_escaped dest_sz backslashes c o =
    if c == 92
    then o
    else if c == b'"'
    then put dest_sz c (put_times dest_sz (backslashes * 2 + 1) 92 o)
    else put dest_sz c (put_times dest_sz backslashes 92 o)

abbrev pub next_backslashes : ℕ → ℕ → ℕ
next_backslashes backslashes c = if c == 92 then backslashes + 1 else 0

-- The loop over the argument, with what follows it up to the closing quote.
pub put_body : ℕ → ℕ → Bytes → Out → Out
unfolding put put_times put_escaped
put_body dest_sz backslashes [] o = put dest_sz b'"' (put_times dest_sz (backslashes * 2) 92 o)
put_body dest_sz backslashes (c ∷ cs) o =
    put_body dest_sz (next_backslashes backslashes c) cs (put_escaped dest_sz backslashes c o)

pub put_separator : ℕ → Out → Out
unfolding put
put_separator dest_sz o = if ltb 0 o.pos then put dest_sz b' ' o else o

-- The `memcpy` of an argument without quotes.
pub put_plain : ℕ → Bytes → Out → Out
put_plain dest_sz arg o =
    if ltb (o.pos + length arg) dest_sz
    then record { text = o.text ++ arg; pos = o.pos + length arg }
    else record o { pos = dest_sz }

-- `_append_quoted_arg`
pub append_quoted_arg : ℕ → Bytes → Out → Out
unfolding needs_quotes put put_body put_separator put_plain
append_quoted_arg dest_sz arg o =
    let behind = put_separator dest_sz o in
    if needs_quotes arg
    then put_body dest_sz 0 arg (put dest_sz b'"' behind)
    else put_plain dest_sz arg behind

pub append_args : ℕ → List Bytes → Out → Out
unfolding append_quoted_arg
append_args dest_sz [] o = o
append_args dest_sz (arg ∷ argv) o = append_args dest_sz argv (append_quoted_arg dest_sz arg o)

cmdline_of : ℕ → Out → Option Bytes
cmdline_of dest_sz o = if leb dest_sz o.pos then none else some o.text

-- `_build_cmdline`
unfoldable pub build_cmdline : ℕ → List Bytes → Option Bytes
unfolding append_args cmdline_of
build_cmdline dest_sz argv =
    cmdline_of dest_sz (append_args dest_sz argv (record { text = []; pos = 0 }))
