-- ===== src/Util/AtomicWrite/Renames.antt =====
-- Whether the calls of `atomic_write_file` rename the temporary file.
use hai_code.Base.{
  Bytes, ◌≡◌, refl, ap, ◌∙◌, some, Bool, true, false, ◌||◌, List, [], ◌∷◌, ◌++◌, take, drop, arith,
}
use hai_code.Util.AtomicWrite.{
  WriteAnswer, wrote, interrupted, failed, created, mode_set, wrote_bytes, attributes_copied,
  flushed, closed, renamed, unlinked, Calls, write_loop,
}
use hai_code.Util.AtomicWrite.Loop.{before-some}

-- Whether a rename succeeded.
unfoldable pub commits : Calls → Bool
commits [] = false
commits ((renamed _ _, ok) ∷ calls) = ok || commits calls
commits ((created _, ok) ∷ calls) = commits calls
commits ((mode_set _, ok) ∷ calls) = commits calls
commits ((wrote_bytes _, ok) ∷ calls) = commits calls
commits ((attributes_copied _, ok) ∷ calls) = commits calls
commits ((flushed, ok) ∷ calls) = commits calls
commits ((closed, ok) ∷ calls) = commits calls
commits ((unlinked _, ok) ∷ calls) = commits calls

pub commits-append : (a b : Calls) → commits (a ++ b) ≡ (commits a || commits b)
unfolding commits
commits-append [] b = refl
commits-append ((renamed _ _, ok) ∷ a) b = ground (arith, commits-append a b)
commits-append ((created _, ok) ∷ a) b = commits-append a b
commits-append ((mode_set _, ok) ∷ a) b = commits-append a b
commits-append ((wrote_bytes _, ok) ∷ a) b = commits-append a b
commits-append ((attributes_copied _, ok) ∷ a) b = commits-append a b
commits-append ((flushed, ok) ∷ a) b = commits-append a b
commits-append ((closed, ok) ∷ a) b = commits-append a b
commits-append ((unlinked _, ok) ∷ a) b = commits-append a b

pub commits-write_loop :
    (s : Bytes) (answers : List WriteAnswer) (ok : Bool) (calls : Calls)
    → write_loop s answers ≡ some (ok, calls)
    → commits calls ≡ false
unfolding write_loop commits
commits-write_loop [] answers ok calls e = ground (arith, e)
commits-write_loop (c ∷ s) [] ok calls e = cc
commits-write_loop (c ∷ s) (wrote n ∷ answers) ok calls e =
    let (rest, found, shape) =
      before-some (wrote_bytes (take n (c ∷ s)), true) (write_loop (drop n (c ∷ s)) answers) ok
        calls e in
    ap commits shape ∙ commits-write_loop (drop n (c ∷ s)) answers ok rest found
commits-write_loop (c ∷ s) (interrupted ∷ answers) ok calls e =
    let (rest, found, shape) =
      before-some (wrote_bytes [], false) (write_loop (c ∷ s) answers) ok calls e in
    ap commits shape ∙ commits-write_loop (c ∷ s) answers ok rest found
commits-write_loop (c ∷ s) (failed ∷ answers) ok calls e = ground (arith, e)
