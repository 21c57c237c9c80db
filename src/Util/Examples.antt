-- ===== src/Util/Examples.antt =====
-- The theorems on lib/src/util/util.cpp at concrete inputs.
use hai_code.Base.{
  Bool, List, negsuc, ◌&&◌, ◌||◌, refl, true, false, none, some, arith, take, drop, ◌⊎◌, codes,
  ◌++◌, ◌≤◌, length, Bytes, ◌≡◌, ◌↔◌, [], ◌∷◌,
}
use hai_code.Util.Subprocess.{
  SubprocessResult, Pipe, ReadAnswer, got, again, closed, drain_available, signalled, ready, Tick,
  run_subprocess,
}
use hai_code.Util.Subprocess.Output.{NonEmpty, Holds, bytes_of, drain_available-Holds}
use hai_code.Util.Subprocess.Result.{run_subprocess_returns}
use hai_code.Util.AtomicWrite.{
  Kernel, wrote, interrupted, created, mode_set, wrote_bytes, attributes_copied, flushed, closed,
  renamed, Calls, write_loop, before, effective_mode, write_path_of, publish, written, filled,
  atomic_write_file,
}
use hai_code.Util.AtomicWrite.Loop.{progress}
use hai_code.Util.AtomicWrite.Outcome.{
  Untouched, Discarded, Committed, atomic_write_file_outcomes, atomic_write_file_returns,
}
use hai_code.Util.Capabilities.{anthropic_model_caps, anthropic_map_effort}
use hai_code.Util.Capabilities.Effort.{Supported, anthropic_map_effort-Supported}
use hai_code.Util.Utf8.{sanitize_utf8}
use hai_code.Util.Utf8.Valid.{IsUtf8, sanitize_utf8-IsUtf8, sanitize_utf8_iff}
use hai_code.Util.Base64.{base64_encode, base64_decode}
use hai_code.Util.Base64.RoundTrip.{base64_decode-encode}

-- A lead byte without its continuation, and an overlong encoding of `/`.
abbrev broken : Bytes
broken = 226 ∷ 65 ∷ 192 ∷ 175 ∷ []

sanitize_utf8-IsUtf8_example : IsUtf8 (sanitize_utf8 broken)
sanitize_utf8-IsUtf8_example = sanitize_utf8-IsUtf8 broken

sanitize_utf8_iff_example : (sanitize_utf8 broken ≡ broken) ↔ IsUtf8 broken
sanitize_utf8_iff_example = sanitize_utf8_iff broken

base64_decode-encode_example :
    base64_decode (base64_encode (255 ∷ 0 ∷ 128 ∷ 7 ∷ [])) ≡ 255 ∷ 0 ∷ 128 ∷ 7 ∷ []
base64_decode-encode_example =
    base64_decode-encode (255 ∷ 0 ∷ 128 ∷ 7 ∷ [])
      (omega arith, (omega arith, (omega arith, (omega arith, tt))))

anthropic_map_effort-Supported_example :
    (anthropic_map_effort (codes "Claude-Opus-4-6-20260101") (codes "xhigh") ≡ [])
    ⊎ Supported
        (anthropic_model_caps (codes "Claude-Opus-4-6-20260101")).effort_mask
        (anthropic_map_effort (codes "Claude-Opus-4-6-20260101") (codes "xhigh"))
anthropic_map_effort-Supported_example =
    anthropic_map_effort-Supported (codes "Claude-Opus-4-6-20260101") (codes "xhigh")

-- The first write takes two bytes, the second one is interrupted.
abbrev kernel : Kernel
kernel = record {
  is_link = false;
  realpath = none;
  stat_mode = some 493;
  mkstemp = some (codes "t1");
  fchmod = true;
  writes = wrote 2 ∷ interrupted ∷ wrote 1 ∷ [];
  fsync = true;
  close = true;
  rename = true;
  unlink = true;
  strerror = codes "Unknown";
}

abbrev calls : Calls
calls =
    (created (codes "t1"), true)
    ∷ (mode_set 493, true)
    ∷ (wrote_bytes (codes "ab"), true)
    ∷ (wrote_bytes [], false)
    ∷ (wrote_bytes (codes "c"), true)
    ∷ (attributes_copied (codes "f"), true)
    ∷ (flushed, true)
    ∷ (closed, true)
    ∷ (renamed (codes "t1") (codes "f"), true)
    ∷ []

atomic_write_file_outcomes_example :
    Untouched kernel ([], calls)
    ⊎ ((tmp target : Bytes) × (kernel.mkstemp ≡ some tmp)
        × (write_path_of kernel (codes "f") ≡ some target)
        × (Discarded kernel tmp ([], calls)
            ⊎ Committed kernel
                (codes "abc")
                tmp
                target
                (effective_mode 0 kernel.stat_mode)
                ([], calls)))
unfolding atomic_write_file write_path_of filled written publish write_loop before effective_mode
    take drop
atomic_write_file_outcomes_example =
    atomic_write_file_outcomes kernel (codes "f") (codes "abc") 0 ([], calls) refl

atomic_write_file_returns_example :
    (r : Bytes × Calls) × (atomic_write_file kernel (codes "f") (codes "abc") 0 ≡ some r)
unfolding progress
atomic_write_file_returns_example =
    atomic_write_file_returns kernel (codes "f") (codes "abc") 0 (omega arith)

abbrev answers : List ReadAnswer
answers = got (codes "ab") ∷ again ∷ got (codes "cd") ∷ closed ∷ []

abbrev empty_pipe : Pipe
empty_pipe = record { output = []; truncated = false }

drain_available-Holds_example :
    Holds 3 ([] ++ bytes_of answers) (drain_available 3 answers empty_pipe).1
unfolding NonEmpty take
drain_available-Holds_example =
    drain_available-Holds 3 answers [] empty_pipe (omega arith, (omega arith, tt))
      (record { kept = refl; cut = refl })

-- A round in which the child goes on, one behind the deadline, and one behind the grace window.
abbrev tick : Bool → Bool → Tick
tick late in_grace = record {
  in_grace = in_grace;
  waited = none;
  interrupt = false;
  late = late;
  polled = ready answers;
  killed = signalled;
  last = [];
  rest = none;
}

run_subprocess_returns_example :
    (r : SubprocessResult) × (run_subprocess 3 none
        (tick false true ∷ tick true true ∷ tick false false ∷ [])
      ≡ some r)
    × (length r.output ≤ 3)
    × ((r.timed_out && r.interrupted) ≡ false)
    × ((r.timed_out || r.interrupted) ≡ true → r.exit_code ≡ negsuc 0)
run_subprocess_returns_example =
    run_subprocess_returns 3 (tick false true ∷ []) (tick true true) (tick false false) [] refl refl
