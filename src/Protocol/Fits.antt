-- ===== src/Protocol/Fits.antt =====
-- The texts that the builders return fit their buffers, and the wire identifiers are UUIDs.
use leo_one.Prelude.{length, Bytes, ℕ, ◌<◌, ◌≡◌, Option, none, some, arith}
use leo_one.Protocol.{Stamp, envelope, fit, serialize}
use leo_one.Types.{MsgType}
use leo_one.Protocol.Tree.{Fields, Cjson}

-- A message is returned only if it and its terminator fit the buffer.
fit_bound : (bufsz : ℕ) (o : Option Bytes) (s : Bytes) → fit bufsz o ≡ some s → length s < bufsz
unfolding fit
fit_bound bufsz none s h = ground arith
fit_bound bufsz (some t) s h = ground arith

-- What `_serialize` returns is the text that cJSON printed of the message, and it fits the buffer
-- together with its terminator.
pub serialize-fits :
    {Node : Type 0} (cj : Cjson Node) (t : MsgType) (content : Option Fields) (st : Stamp)
    (bufsz : ℕ) (s : Bytes)
    → serialize cj t content st bufsz ≡ some s
    → (length s < bufsz) × (cj.print (envelope t content st) ≡ some s)
unfolding serialize fit
serialize-fits cj t content st bufsz s h = by_print (cj.print (envelope t content st)) h
  where
    by_print : (o : Option Bytes) → fit bufsz o ≡ some s → (length s < bufsz) × (o ≡ some s)
    by_print o h' = (fit_bound bufsz o s h', ground arith)
