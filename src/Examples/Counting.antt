-- ===== src/Examples/Counting.antt =====
-- Workers that are started and told to end, and processes that are spawned.
use zproc.Prelude.{
  ◌==◌, if◌then◌else◌, Error, connection_error, ok, raise, ℕ, ◌+◌, ◌<◌, ◌≡◌, refl, ◌⊎◌, true, false,
  Option, none, some, [], ◌∷◌, ◌++◌, map,
}
use zproc.Task.Workers.{Workers, count, set_count}
use zproc.Task.Workers.Counting.{set_count_lem}
use zproc.Process.Spawn.{spawn}
use zproc.Process.Spawn.Order.{times, returned, spawn_lem}

abbrev two_of_three : Workers
two_of_three = record { worker_list = true ∷ false ∷ true ∷ []; told_to_end = 4 }

abbrev third_fails : ℕ → Option Error
third_fails i = if i == 2 then some connection_error else none

set_count_example :
    let (r, w') = set_count third_fails 7 two_of_three in
    ((r ≡ ok tt) × (count w' + two_of_three.told_to_end ≡ 7 + w'.told_to_end))
    ⊎ ((e : Error) × (r ≡ raise e) × (count w' < 7) × (w'.told_to_end ≡ two_of_three.told_to_end))
set_count_example = set_count_lem third_fails 7 two_of_three

set_count_test : count (set_count third_fails 7 two_of_three).1 ≡ 4
unfolding set_count
set_count_test = refl

-- Two calls with 1 tell both workers to end, if none has ended in between.
set_twice_test :
    (set_count third_fails 1 (set_count third_fails 1 two_of_three).1).1.told_to_end ≡ 6
unfolding set_count
set_twice_test = refl

spawn_example :
    let (spawned, process_list) = spawn (λ n. n + 100) (1 ∷ 2 ∷ []) 2 (7 ∷ []) in
    (returned spawned ≡ map (λ n. n + 100) (times 2 (1 ∷ 2 ∷ [])))
    × (process_list ≡ (7 ∷ []) ++ map (λ n. n + 100) (times 2 (1 ∷ 2 ∷ [])))
spawn_example = spawn_lem (λ n. n + 100) 1 (2 ∷ []) 2 (7 ∷ [])

spawn_test : (spawn (λ n. n + 100) (1 ∷ 2 ∷ []) 2 (7 ∷ [])).1 ≡ 7 ∷ 101 ∷ 102 ∷ 101 ∷ 102 ∷ []
unfolding spawn
spawn_test = refl
