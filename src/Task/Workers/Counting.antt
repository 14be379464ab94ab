-- ===== src/Task/Workers/Counting.antt =====
-- What the setter of `count` brings about.
use zproc.Prelude.{
  ltb, ltb→lt, Bool-cases, length, length-map, range, length-range, Error, Result, ok, raise, ℕ,
  suc, ◌+◌, ◌-◌, ◌<◌, ◌≡◌, refl, ap, ◌∙◌, ◌⊎◌, inl, inr, Bool, true, false, Option, none, some,
  List, [], ◌∷◌, ◌++◌, map, arith,
}
use zproc.Task.Workers.{Workers, alive_in, count, start_workers, set_count}

alive_in-snoc : (ws : List Bool) → alive_in (ws ++ true ∷ []) ≡ suc (alive_in ws)
unfolding alive_in
alive_in-snoc [] = refl
alive_in-snoc (true ∷ ws) = ap suc (alive_in-snoc ws)
alive_in-snoc (false ∷ ws) = alive_in-snoc ws

-- After a start of workers: all of them are there, or the first that failed ended it.
abbrev pub Started : ℕ → Workers → Result (Unit {0}) × Workers → Type 0
Started n w (r, w') =
    (w'.told_to_end ≡ w.told_to_end)
    × (((r ≡ ok tt) × (count w' ≡ count w + n))
        ⊎ ((e : Error) × (r ≡ raise e) × (count w' < count w + n)))

start_workers-Started :
    (replies : List (Option Error)) (w : Workers)
    → Started (length replies) w (start_workers replies w)
unfolding start_workers count
start_workers-Started [] w = (refl, inl (refl, omega arith))
start_workers-Started (some e ∷ replies) w = (refl, inr (e, refl, omega arith))
start_workers-Started (none ∷ replies) w =
    let more : alive_in (w.worker_list ++ true ∷ []) ≡ suc (alive_in w.worker_list) =
      alive_in-snoc w.worker_list in
    let (same, result) =
      start_workers-Started replies (record w { worker_list = w.worker_list ++ true ∷ [] }) in
    (
      same,
      elim result [
        | inl (e, n) ↦ inl (e, omega (arith, n, more))
        | inr (x, e, n) ↦ inr (x, e, omega (arith, n, more))
      ],
    )

-- When the setter of `count` returns, the workers alive are the value and one for each message that it
-- has sent: as many are left as asked for once each message has ended one. When a new worker fails to
-- come up, its exception is raised, the workers are less than the value, and no message was sent.
pub set_count_lem :
    (reply : ℕ → Option Error) (value : ℕ) (w : Workers)
    → let (r, w') = set_count reply value w in
      ((r ≡ ok tt) × (count w' + w.told_to_end ≡ value + w'.told_to_end))
      ⊎ ((e : Error) × (r ≡ raise e) × (count w' < value) × (w'.told_to_end ≡ w.told_to_end))
unfolding set_count
set_count_lem reply value w = elim (Bool-cases (ltb (count w) value)) [
  | inl h ↦
      let n : length (map reply (range (value - count w))) ≡ value - count w =
        length-map (range (value - count w)) reply ∙ length-range (value - count w) in
      let less : count w < value = ltb→lt (count w) value h in
      let (same, result) = start_workers-Started (map reply (range (value - count w))) w in
      rw h (elim result [
        | inl (e, k) ↦ inl (e, omega (arith, k, n, same, less))
        | inr (x, e, k) ↦ inr (x, e, omega (arith, k, n, less), same)
      ])
  | inr h ↦ rw h (inl (refl, unfold count in ground (arith, h)))
]
