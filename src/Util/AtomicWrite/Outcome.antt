-- ===== src/Util/AtomicWrite/Outcome.antt =====
-- What `atomic_write_file` has done when it returns.
use hai_code.Base.{
  Bytes, ℕ, ◌≡◌, ◌≤◌, ◌⊎◌, length, refl, ap, ◌∙◌, sym, none, some, Option-cases, Bool-cases, inl,
  inr, Bool, true, false, ◌||◌, [], ◌∷◌, ◌++◌, codes, subst, arith,
}
use mathlib.Core.List.{append_assoc}
use hai_code.Permission.Path.{is_empty}
use hai_code.Util.AtomicWrite.{
  Kernel, created, mode_set, attributes_copied, flushed, closed, renamed, unlinked, Calls,
  write_loop, effective_mode, write_path_of, publish, written, filled, message, atomic_write_file,
}
use hai_code.Util.AtomicWrite.Loop.{taken, taken-write_loop, progress, write_loop_returns}
use hai_code.Util.AtomicWrite.Renames.{commits, commits-append, commits-write_loop}

some_same : {x y : Bytes × Calls} → some x ≡ some y → x ≡ y
some_same e = cc e

module _ (k : Kernel) where
  -- The temporary file is written whole, flushed and closed before it takes the target's place.
  pub Committed : Bytes → Bytes → Bytes → ℕ → Bytes × Calls → Type 0
  Committed content tmp target mode (err, calls) =
      (err ≡ [])
      × ((writes : Calls) × (taken writes ≡ content)
          × (calls
              ≡ (created tmp, true)
                ∷ (mode_set mode, true)
                ∷ (writes
                    ++ (attributes_copied target, true)
                      ∷ (flushed, true)
                      ∷ (closed, true)
                      ∷ (renamed tmp target, true)
                      ∷ [])))

  -- The temporary file is removed and has not taken the target's place.
  unfoldable pub Discarded : Bytes → Bytes × Calls → Type 0
  Discarded tmp (err, calls) =
      (is_empty err ≡ false)
      × ((rest : Calls) × (commits rest ≡ false)
          × (calls ≡ (created tmp, true) ∷ (rest ++ (unlinked tmp, k.unlink) ∷ [])))

  unfoldable pub Untouched : Bytes × Calls → Type 0
  Untouched (err, calls) = (is_empty err ≡ false) × (calls ≡ [])

  publish_cases :
      (tmp target : Bytes)
      → (publish k tmp target
          ≡ ([], (flushed, true) ∷ (closed, true) ∷ (renamed tmp target, true) ∷ []))
        ⊎ ((is_empty (publish k tmp target).0 ≡ false)
            × ((rest : Calls) × (commits rest ≡ false)
                × ((publish k tmp target).1 ≡ rest ++ (unlinked tmp, k.unlink) ∷ [])))
  unfolding publish message is_empty commits
  publish_cases tmp target = elim (Bool-cases k.fsync) [
    | inr f ↦ rw f (inr (refl, ((flushed, false) ∷ (closed, k.close) ∷ [], refl, refl)))
    | inl f ↦ elim (Bool-cases k.close) [
      | inr c ↦ rw (f, c) (inr (refl, ((flushed, true) ∷ (closed, false) ∷ [], refl, refl)))
      | inl c ↦ elim (Bool-cases k.rename) [
        | inr r ↦
            rw (f, c, r)
              (inr (
                refl,
                ((flushed, true) ∷ (closed, true) ∷ (renamed tmp target, false) ∷ [], refl, refl),
              ))
        | inl r ↦ rw (f, c, r) (inl refl)
      ]
    ]
  ]

  module _ (content tmp target : Bytes) (mode : ℕ) where
    opened : Bytes × Calls → Bytes × Calls
    opened (err, calls) = (err, (created tmp, true) ∷ (mode_set mode, true) ∷ calls)

    opening : Calls → Calls
    opening calls = (created tmp, true) ∷ (mode_set mode, true) ∷ calls

    written_cases :
        (ok : Bool) (writes : Calls)
        → write_loop content k.writes ≡ some (ok, writes)
        → Discarded tmp (opened (written k tmp target (ok, writes)))
          ⊎ Committed content tmp target mode (opened (written k tmp target (ok, writes)))
    unfolding written opened opening Discarded Committed message is_empty commits
    written_cases false writes e = inl (
      refl,
      (
        (mode_set mode, true) ∷ (writes ++ (closed, k.close) ∷ []),
        commits-append writes ((closed, k.close) ∷ [])
            ∙ ap (λ (b : Bool). b || false) (commits-write_loop content k.writes false writes e),
        ap opening
            (sym (append_assoc writes ((closed, k.close) ∷ []) ((unlinked tmp, k.unlink) ∷ []))),
      ),
    )
    written_cases true writes e = elim (publish_cases tmp target) [
      | inl done ↦ inr (
        ap (λ (x : Bytes × Calls). x.0) done,
        (
          writes,
          taken-write_loop content k.writes writes e,
          ap (λ (x : Bytes × Calls). opening (writes ++ (attributes_copied target, true) ∷ x.1))
              done,
        ),
      )
      | inr (err, (rest, quiet, calls)) ↦ inl (
        err,
        (
          (mode_set mode, true) ∷ (writes ++ (attributes_copied target, true) ∷ rest),
          ground (
            arith,
            commits-append writes ((attributes_copied target, true) ∷ rest),
            commits-write_loop content k.writes true writes e,
            quiet,
          ),
          ap (λ (c : Calls). opening (writes ++ (attributes_copied target, true) ∷ c)) calls
              ∙ ap opening (
                  sym (
                    append_assoc writes ((attributes_copied target, true) ∷ rest)
                      ((unlinked tmp, k.unlink) ∷ []))),
        ),
      )
    ]

    refused : Bytes × Calls
    refused = (
      codes "Cannot set mode on temp file: " ++ k.strerror,
      (created tmp, true)
          ∷ (mode_set mode, false)
          ∷ (closed, k.close)
          ∷ (unlinked tmp, k.unlink)
          ∷ [],
    )

    refused-Discarded : Discarded tmp refused
    unfolding refused Discarded is_empty commits
    refused-Discarded = (refl, ((mode_set mode, false) ∷ (closed, k.close) ∷ [], refl, refl))

    filled-refused : k.fchmod ≡ false → filled k content tmp target mode ≡ some refused
    unfolding filled refused
    filled-refused h = rw h refl

    filled_done :
        k.fchmod ≡ true
        → (ok : Bool) (writes : Calls) → write_loop content k.writes ≡ some (ok, writes)
        → filled k content tmp target mode ≡ some (opened (written k tmp target (ok, writes)))
    unfolding filled opened
    filled_done h ok writes e = rw (h, e) refl

    filled_running :
        k.fchmod ≡ true
        → write_loop content k.writes ≡ none
        → filled k content tmp target mode ≡ none
    unfolding filled
    filled_running h e = rw (h, e) refl

    filled_cases :
        (r : Bytes × Calls)
        → filled k content tmp target mode ≡ some r
        → Discarded tmp r ⊎ Committed content tmp target mode r
    filled_cases r e = elim (Bool-cases k.fchmod) [
      | inr no_mode ↦
          inl (
            subst (Discarded tmp) (some_same (sym (filled-refused no_mode) ∙ e))
              (refused-Discarded))
      | inl mode_ok ↦ elim (Option-cases (write_loop content k.writes)) [
        | inl running ↦ cc (filled_running mode_ok running, e)
        | inr ((ok, writes), done) ↦
            let same = some_same (sym (filled_done mode_ok ok writes done) ∙ e) in
            subst (λ (x : Bytes × Calls). Discarded tmp x ⊎ Committed content tmp target mode x)
              same (written_cases ok writes done)
      ]
    ]

  unresolved :
      (path content : Bytes) (mode : ℕ)
      → write_path_of k path ≡ none
      → atomic_write_file k path content mode
        ≡ some (
          codes "Cannot resolve symlink "
              ++ (path ++ (codes ": " ++ (k.strerror ++ codes " (nothing was written)"))),
          [],
        )
  unfolding atomic_write_file
  unresolved path content mode lost = ground arith

  not_created :
      (path content : Bytes) (mode : ℕ) (target : Bytes)
      → write_path_of k path ≡ some target
      → k.mkstemp ≡ none
      → atomic_write_file k path content mode
        ≡ some (message k (codes "Cannot create temp file for ") target, [])
  unfolding atomic_write_file
  not_created path content mode target found lost = ground arith

  made_temp :
      (path content : Bytes) (mode : ℕ) (target tmp : Bytes)
      → write_path_of k path ≡ some target
      → k.mkstemp ≡ some tmp
      → atomic_write_file k path content mode
        ≡ filled k content tmp target (effective_mode mode k.stat_mode)
  unfolding atomic_write_file
  made_temp path content mode target tmp found made = ground arith

  -- A call that returns has an error and has done nothing, or it has an error, has renamed nothing and
  -- has unlinked its temporary file last, or it has no error: it has set the mode, written exactly the
  -- content, flushed and closed the file, and then renamed it to the target, which is the path or what
  -- the link there resolves to.
  pub atomic_write_file_outcomes :
      (path content : Bytes) (mode : ℕ) (r : Bytes × Calls)
      → atomic_write_file k path content mode ≡ some r
      → Untouched r
        ⊎ ((tmp target : Bytes) × (k.mkstemp ≡ some tmp)
            × (write_path_of k path ≡ some target)
            × (Discarded tmp r ⊎ Committed content tmp target (effective_mode mode k.stat_mode) r))
  unfolding Untouched is_empty message
  atomic_write_file_outcomes path content mode r e = elim (Option-cases (write_path_of k path)) [
    | inl lost ↦
        inl (subst Untouched (some_same (sym (unresolved path content mode lost) ∙ e)) (refl, refl))
    | inr (target, found) ↦ elim (Option-cases k.mkstemp) [
      | inl none_made ↦ inl (
          subst Untouched
            (some_same (sym (not_created path content mode target found none_made) ∙ e))
            (refl, refl))
      | inr (tmp, made) ↦ inr (
        tmp,
        target,
        made,
        found,
        filled_cases content tmp target (effective_mode mode k.stat_mode) r
            (sym (made_temp path content mode target tmp found made) ∙ e),
      )
    ]
  ]

  filled_returns :
      (content tmp target : Bytes) (mode : ℕ)
      → length content ≤ progress (length content) k.writes
      → (r : Bytes × Calls) × (filled k content tmp target mode ≡ some r)
  filled_returns content tmp target mode h = elim (Bool-cases k.fchmod) [
    | inr no_mode ↦
        (refused content tmp target mode, filled-refused content tmp target mode no_mode)
    | inl mode_ok ↦
        let ((ok, writes), done) = write_loop_returns (length content) content k.writes h in
        (
          opened content tmp target mode (written k tmp target (ok, writes)),
          filled_done content tmp target mode mode_ok ok writes done,
        )
  ]

  -- The call returns where the answers to `write` take as many bytes as there are, or one of them is a
  -- failure, however often they are interrupted or take none in between.
  pub atomic_write_file_returns :
      (path content : Bytes) (mode : ℕ)
      → length content ≤ progress (length content) k.writes
      → (r : Bytes × Calls) × (atomic_write_file k path content mode ≡ some r)
  atomic_write_file_returns path content mode h = elim (Option-cases (write_path_of k path)) [
    | inl lost ↦ (_, unresolved path content mode lost)
    | inr (target, found) ↦ elim (Option-cases k.mkstemp) [
      | inl none_made ↦ (_, not_created path content mode target found none_made)
      | inr (tmp, made) ↦
          let (r, e) = filled_returns content tmp target (effective_mode mode k.stat_mode) h in
          (r, made_temp path content mode target tmp found made ∙ e)
    ]
  ]
