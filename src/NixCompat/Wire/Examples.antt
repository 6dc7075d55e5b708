-- ===== src/NixCompat/Wire/Examples.antt =====
-- The theorems on the writer of byte strings at a concrete writer underneath.
use tvix.Prelude.{◌^◌, ◌<◌, ◌≡◌, refl, ap, [], ◌∷◌, ◌++◌, some, Bytes, length, take, min, arith, ok}
use tvix.NixCompat.Nar.Writer.{to_le_bytes}
use tvix.NixCompat.Wire.{write_bytes}
use tvix.NixCompat.Wire.Writer.{
  ready, AsyncWrite, BytesWriter, new, padding, poll_write, poll_shutdown,
}
use tvix.NixCompat.Wire.Writer.Position.{Laws, Willing, Holds}
use tvix.NixCompat.Wire.Writer.Writes.{Wrote, poll_write-Wrote}
use tvix.NixCompat.Wire.Writer.Polls.{ShutDown, poll_shutdown-ShutDown, poll_shutdown_completes}

-- A writer that accepts three bytes at a time, into a list.
abbrev slow : AsyncWrite Bytes (Unit {0})
slow = record {
  poll_write = λ buf out. (ready (ok (min 3 (length buf))), out ++ take (min 3 (length buf)) buf);
  poll_flush = λ out. (ready (ok tt), out);
  poll_shutdown = λ out. (ready (ok tt), out);
}

abbrev all_of : Bytes → Bytes
all_of out = out

slow-Laws : Laws slow all_of
slow-Laws = record {
  within = λ buf i n e. let is : min 3 (length buf) ≡ n = cc in omega arith;
  writes = λ buf i n e. let is : min 3 (length buf) ≡ n = cc in ap (λ k. i ++ take k buf) is;
  busy_keeps = λ buf i e. cc;
  error_keeps = λ buf i x e. cc;
  flush_keeps = λ i. refl;
  shutdown_keeps = λ i. refl;
}

slow-Willing : Willing slow all_of
slow-Willing = record {
  takes = λ buf i some_there. (min 3 (length buf), omega arith, refl);
  flushes = λ i. refl;
  shuts_down = λ i. refl;
}

two_fits : 2 < 2 ^ 64
two_fits = omega arith

-- Before anything was sent of a packet of two bytes, behind one byte.
abbrev started : BytesWriter Bytes
started = new (7 ∷ []) 2

started-Holds : Holds slow all_of (7 ∷ []) 2 [] started
started-Holds = record { same = refl; sent = refl; fits = (omega arith, refl) }

poll_write-Wrote_example :
    Wrote slow all_of slow-Laws
      (7 ∷ [])
      2
      two_fits
      []
      (1 ∷ 2 ∷ [])
      (poll_write slow (1 ∷ 2 ∷ []) started)
poll_write-Wrote_example =
    poll_write-Wrote slow all_of slow-Laws (7 ∷ []) 2 two_fits [] (1 ∷ 2 ∷ []) started started-Holds
      (omega arith)

-- The two bytes of the payload were written, and the padding was not.
abbrev paid_up : BytesWriter Bytes
paid_up = record {
  inner = (7 ∷ []) ++ (to_le_bytes 2 ++ (1 ∷ 2 ∷ []));
  payload_len = 2;
  state = padding 0;
}

paid_up-Holds : Holds slow all_of (7 ∷ []) 2 (1 ∷ 2 ∷ []) paid_up
paid_up-Holds = record { same = refl; sent = refl; fits = (refl, omega arith) }

poll_shutdown-ShutDown_example :
    ShutDown slow all_of slow-Laws (7 ∷ []) 2 two_fits (1 ∷ 2 ∷ []) (poll_shutdown slow paid_up)
poll_shutdown-ShutDown_example =
    poll_shutdown-ShutDown slow all_of slow-Laws (7 ∷ []) 2 two_fits (1 ∷ 2 ∷ []) paid_up
      paid_up-Holds

poll_shutdown_completes_example :
    (v : BytesWriter Bytes) × (poll_shutdown slow paid_up ≡ (some (ready (ok tt)), v))
    × (v.inner ≡ write_bytes (7 ∷ []) (1 ∷ 2 ∷ []))
poll_shutdown_completes_example =
    poll_shutdown_completes slow all_of slow-Laws (7 ∷ []) 2 two_fits (1 ∷ 2 ∷ []) paid_up refl
      slow-Willing paid_up-Holds
