-- ===== src/Util/AtomicWrite/Loop.antt =====
-- The write loop of `atomic_write_file`.
use hai_code.Base.{
  Bytes, ℕ, ◌+◌, ◌≤◌, ◌≡◌, refl, ap, ◌∙◌, sym, Option, none, some, Bool, true, false, List, [], ◌∷◌,
  ◌++◌, take, drop, take-drop, length, length-drop, arith,
}
use hai_code.Util.AtomicWrite.{
  WriteAnswer, wrote, interrupted, failed, Call, created, mode_set, wrote_bytes, attributes_copied,
  flushed, closed, renamed, unlinked, Calls, before, write_loop,
}

-- The bytes that calls have written.
pub taken : Calls → Bytes
taken [] = []
taken ((wrote_bytes s, ok) ∷ calls) = s ++ taken calls
taken ((created _, ok) ∷ calls) = taken calls
taken ((mode_set _, ok) ∷ calls) = taken calls
taken ((attributes_copied _, ok) ∷ calls) = taken calls
taken ((flushed, ok) ∷ calls) = taken calls
taken ((closed, ok) ∷ calls) = taken calls
taken ((renamed _ _, ok) ∷ calls) = taken calls
taken ((unlinked _, ok) ∷ calls) = taken calls

pub before-some :
    (c : Call × Bool) (r : Option (Bool × Calls)) (ok : Bool) (calls : Calls)
    → before c r ≡ some (ok, calls)
    → (rest : Calls) × (r ≡ some (ok, rest)) × (calls ≡ c ∷ rest)
unfolding before
before-some c none ok calls e = cc
before-some c (some (done, rest)) ok calls e = (rest, ground (arith, e), ground (arith, e))

pub taken-write_loop :
    (s : Bytes) (answers : List WriteAnswer) (calls : Calls)
    → write_loop s answers ≡ some (true, calls)
    → taken calls ≡ s
unfolding write_loop taken
taken-write_loop [] answers calls e = ground (arith, e)
taken-write_loop (c ∷ s) [] calls e = cc
taken-write_loop (c ∷ s) (wrote n ∷ answers) calls e =
    let (rest, found, shape) =
      before-some (wrote_bytes (take n (c ∷ s)), true) (write_loop (drop n (c ∷ s)) answers) true
        calls e in
    ap taken shape
    ∙ ap (λ (t : Bytes). take n (c ∷ s) ++ t) (taken-write_loop (drop n (c ∷ s)) answers rest found)
    ∙ sym (take-drop n (c ∷ s))
taken-write_loop (c ∷ s) (interrupted ∷ answers) calls e =
    let (rest, found, shape) =
      before-some (wrote_bytes [], false) (write_loop (c ∷ s) answers) true calls e in
    ap taken shape ∙ taken-write_loop (c ∷ s) answers rest found
taken-write_loop (c ∷ s) (failed ∷ answers) calls e = cc

-- How many bytes the answers take, a failure standing for as many as there are left at least.
unfoldable pub progress : ℕ → List WriteAnswer → ℕ
progress size [] = 0
progress size (wrote n ∷ answers) = n + progress size answers
progress size (interrupted ∷ answers) = progress size answers
progress size (failed ∷ answers) = size

before_returns :
    (c : Call × Bool) (r : Option (Bool × Calls))
    → ((x : Bool × Calls) × (r ≡ some x))
    → (x : Bool × Calls) × (before c r ≡ some x)
unfolding before
before_returns c none (x, e) = cc
before_returns c (some (ok, calls)) h = ((ok, c ∷ calls), refl)

-- The loop ends where the answers take all bytes, or one of them is a failure.
pub write_loop_returns :
    (size : ℕ) (s : Bytes) (answers : List WriteAnswer)
    → length s ≤ progress size answers
    → (x : Bool × Calls) × (write_loop s answers ≡ some x)
unfolding write_loop progress
write_loop_returns size [] answers h = ((true, []), refl)
write_loop_returns size (c ∷ s) [] h = absurd (omega arith)
write_loop_returns size (c ∷ s) (wrote n ∷ answers) h =
    before_returns (wrote_bytes (take n (c ∷ s)), true) (write_loop (drop n (c ∷ s)) answers)
      (write_loop_returns size (drop n (c ∷ s)) answers (omega (arith, length-drop n (c ∷ s), h)))
write_loop_returns size (c ∷ s) (interrupted ∷ answers) h =
    before_returns (wrote_bytes [], false) (write_loop (c ∷ s) answers)
      (write_loop_returns size (c ∷ s) answers h)
write_loop_returns size (c ∷ s) (failed ∷ answers) h = ((false, (wrote_bytes [], false) ∷ []), refl)
