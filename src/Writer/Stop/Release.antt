-- ===== src/Writer/Stop/Release.antt =====
-- What a shutdown removes, and what its workers still hold.
use dataset_rt.Prelude.{
  ◌≡◌, Bool, true, false, ◌&&◌, Option, none, some, not, List, [], ◌∷◌, ◌++◌, if◌then◌else◌,
}
use dataset_rt.Writer.{Text, Raised}
use dataset_rt.Writer.Pool.{WriterState, starting, idle, active}
use dataset_rt.Writer.Stop.{Shutdown, Stopped}

-- No error.
abbrev is_none : Option Raised → Bool
is_none none = true
is_none (some raised) = false

-- The child outlived the kill.
abbrev pub survives : Shutdown → Bool
survives x = x.alive_behind_terminate && x.alive_behind_kill

-- What becomes of a destination whose child is dead: a directory is there and can be removed.
abbrev pub removable : Shutdown → Bool
removable x = x.is_dir && not x.is_symlink && is_none x.removal

-- The destinations that are removed: their child is dead and a directory is there that can be
-- removed, in the order of the pool.
abbrev pub removed : List (Shutdown × WriterState) → List Text
removed [] = []
removed ((x, active index deadline destination) ∷ workers) =
    (if not (survives x) && removable x then destination ∷ [] else []) ++ removed workers
removed ((x, idle) ∷ workers) = removed workers
removed ((x, starting deadline) ∷ workers) = removed workers

-- The destinations of the children that outlived the kill.
abbrev pub retained : List (Shutdown × WriterState) → List Text
retained [] = []
retained ((x, active index deadline destination) ∷ workers) =
    (if survives x then destination ∷ [] else []) ++ retained workers
retained ((x, idle) ∷ workers) = retained workers
retained ((x, starting deadline) ∷ workers) = retained workers

-- The destinations that the pool holds.
abbrev pub owned : List WriterState → List Text
owned [] = []
owned (active index deadline destination ∷ states) = destination ∷ owned states
owned (idle ∷ states) = owned states
owned (starting deadline ∷ states) = owned states

abbrev held_by : WriterState → List Text
held_by (active index deadline destination) = destination ∷ []
held_by idle = []
held_by (starting deadline) = []

-- What a call of `stop` does with the destination: it is removed or not, and still held or not.
abbrev Released : Bool → Bool → WriterState → Stopped → Type 0
Released survived cleans state out =
    (out.cleaned ≡ (if not survived && cleans then held_by state else []))
    × (held_by out.state ≡ (if survived then held_by state else []))
