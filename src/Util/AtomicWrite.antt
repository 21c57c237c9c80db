-- ===== src/Util/AtomicWrite.antt =====
-- `atomic_write_file` of lib/src/util/util.cpp. The system calls are a parameter, by their answers;
-- what is modelled is which calls are made, in which order and with what, and what is returned.
pub mod Loop
pub mod Renames
pub mod Outcome
use hai_code.Base.{
  Bytes, ℕ, zero, suc, Option, none, some, Bool, true, false, not, List, [], ◌∷◌, ◌++◌, codes, take,
  drop, ◌==◌, if◌then◌else◌,
}

pub data WriteAnswer : Type 0 where
  wrote : ℕ → WriteAnswer
  interrupted failed : WriteAnswer

-- What the system answers: whether the path is a link, the path that it resolves to, the mode of the
-- file that is there, the path of the temporary file, and so on. `strerror` is the text of an error.
pub record Kernel : Type 0 where
  pub is_link : Bool
  pub realpath : Option Bytes
  pub stat_mode : Option ℕ
  pub mkstemp : Option Bytes
  pub fchmod : Bool
  pub writes : List WriteAnswer
  pub fsync : Bool
  pub close : Bool
  pub rename : Bool
  pub unlink : Bool
  pub strerror : Bytes

-- The calls that change something. `wrote_bytes` has the bytes that were taken.
pub data Call : Type 0 where
  created : Bytes → Call
  mode_set : ℕ → Call
  wrote_bytes : Bytes → Call
  attributes_copied : Bytes → Call
  flushed closed : Call
  renamed : Bytes → Bytes → Call
  unlinked : Bytes → Call

-- Each with whether it succeeded.
abbrev pub Calls : Type 0
Calls = List (Call × Bool)

unfoldable pub before : Call × Bool → Option (Bool × Calls) → Option (Bool × Calls)
before c none = none
before c (some (ok, calls)) = some (ok, c ∷ calls)

-- The write loop: whether all is written, and its calls; `none` where the answers are used up before
-- the loop ends.
unfoldable pub write_loop : Bytes → List WriteAnswer → Option (Bool × Calls)
unfolding before
write_loop [] answers = some (true, [])
write_loop (c ∷ s) [] = none
write_loop (c ∷ s) (wrote n ∷ answers) =
    let rest = write_loop (drop n (c ∷ s)) answers in
    before (wrote_bytes (take n (c ∷ s)), true) rest
write_loop (c ∷ s) (interrupted ∷ answers) =
    let rest = write_loop (c ∷ s) answers in before (wrote_bytes [], false) rest
write_loop (c ∷ s) (failed ∷ answers) = some (false, (wrote_bytes [], false) ∷ [])

unfoldable pub effective_mode : ℕ → Option ℕ → ℕ
effective_mode mode preserve =
    if not (mode == 0)
    then mode
    else elim preserve [ none ↦ 420 | some bits ↦ if not (bits == 0) then bits else 420 ]

module _ (k : Kernel) where
  -- The target, or an error.
  unfoldable pub write_path_of : Bytes → Option Bytes
  write_path_of path = if k.is_link then k.realpath else some path

  pub message : Bytes → Bytes → Bytes
  message what where_ = what ++ (where_ ++ (codes ": " ++ k.strerror))

  -- From the flush on.
  unfoldable pub publish : Bytes → Bytes → Bytes × Calls
  unfolding message
  publish tmp_path write_path =
      if not k.fsync
      then (
        message (codes "Flush error on ") tmp_path,
        (flushed, false) ∷ (closed, k.close) ∷ (unlinked tmp_path, k.unlink) ∷ [],
      )
      else if not k.close
      then (
        message (codes "Close error on ") tmp_path,
        (flushed, true) ∷ (closed, false) ∷ (unlinked tmp_path, k.unlink) ∷ [],
      )
      else if not k.rename
      then (
        message (codes "Cannot rename to target: ") write_path,
        (flushed, true)
            ∷ (closed, true)
            ∷ (renamed tmp_path write_path, false)
            ∷ (unlinked tmp_path, k.unlink)
            ∷ [],
      )
      else ([], (flushed, true) ∷ (closed, true) ∷ (renamed tmp_path write_path, true) ∷ [])

  -- Behind the write loop.
  unfoldable pub written : Bytes → Bytes → Bool × Calls → Bytes × Calls
  unfolding publish message
  written tmp_path write_path (false, calls) = (
    message (codes "Write error on ") tmp_path,
    calls ++ (closed, k.close) ∷ (unlinked tmp_path, k.unlink) ∷ [],
  )
  written tmp_path write_path (true, calls) =
      let (err, rest) = publish tmp_path write_path in
      (err, calls ++ (attributes_copied write_path, true) ∷ rest)

  unfoldable pub filled : Bytes → Bytes → Bytes → ℕ → Option (Bytes × Calls)
  unfolding written message
  filled content tmp_path write_path mode =
      if not k.fchmod
      then some (
        codes "Cannot set mode on temp file: " ++ k.strerror,
        (created tmp_path, true)
            ∷ (mode_set mode, false)
            ∷ (closed, k.close)
            ∷ (unlinked tmp_path, k.unlink)
            ∷ [],
      )
      else elim (write_loop content k.writes) [
        | none ↦ none
        | some done ↦
            let (err, calls) = written tmp_path write_path done in
            some (err, (created tmp_path, true) ∷ (mode_set mode, true) ∷ calls)
      ]

  -- The error, empty for none, and the calls; `none` where the answers to `write` are used up.
  unfoldable pub atomic_write_file : Bytes → Bytes → ℕ → Option (Bytes × Calls)
  unfolding filled write_path_of message
  atomic_write_file path content mode = elim (write_path_of path) [
    | none ↦ some (
      codes "Cannot resolve symlink "
          ++ (path ++ (codes ": " ++ (k.strerror ++ codes " (nothing was written)"))),
      [],
    )
    | some write_path ↦ elim k.mkstemp [
      | none ↦ some (message (codes "Cannot create temp file for ") write_path, [])
      | some tmp_path ↦ filled content tmp_path write_path (effective_mode mode k.stat_mode)
    ]
  ]
