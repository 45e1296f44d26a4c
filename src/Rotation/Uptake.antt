-- ===== src/Rotation/Uptake.antt =====
-- src/rotation.rs: what it takes for `classify_adoption` to call a member current.
use mathlib.Core.List.{Memᴰ}
use ops_light_secrets_server.Prelude.{
  ℕ, ◌≤◌, ◌<◌, ◌≡◌, refl, sym, subst, Bool, true, ◌&&◌, List, [], ◌∷◌, ltb, leb, ◌==◌, ==_iff,
  select, arith, inl, inr, ◌⊎◌, Bool-cases,
}
use ops_light_secrets_server.Prelude.Order.{nat_ord}
use ops_light_secrets_server.Prelude.Search.{mem-select, select-mem}
use ops_light_secrets_server.Rotation.Reads.{
  ReadObservation, on_current, latest, latest_from, latest_class, in_window,
}

-- The latest read of those that count, after the cutover and up to the cutoff, fetched the target.
pub record Fetched (observations : List ReadObservation)
    (cutover_sequence cutoff_sequence target : ℕ) (counts : ReadObservation → Bool) : Type 0 where
  pub item : ReadObservation
  pub seen : Memᴰ item observations
  pub after_cutover : cutover_sequence < item.sequence
  pub before_cutoff : item.sequence ≤ cutoff_sequence
  pub counted : counts item ≡ true
  pub fetched_target : item.version ≡ target
  pub newest :
      (other : ReadObservation)
      → Memᴰ other observations
      → cutover_sequence < other.sequence
      → other.sequence ≤ cutoff_sequence
      → counts other ≡ true
      → other.sequence ≤ item.sequence

record Latest (reads : List ReadObservation) (item : ReadObservation) : Type 0 where
  read : Memᴰ item reads
  newest : (other : ReadObservation) → Memᴰ other reads → other.sequence ≤ item.sequence

mem_cases : {A : Type 0} {x y : A} {xs : List A} → Memᴰ x (y ∷ xs) → (x ≡ y) ⊎ Memᴰ x xs
mem_cases (Memᴰ.head e) = inl e
mem_cases (Memᴰ.tail m) = inr m

-- A read that is not after one of those that count changes nothing.
with_earlier :
    (kept other : ReadObservation) (reads longer : List ReadObservation) (item : ReadObservation)
    → other.sequence ≤ kept.sequence
    → ((x : ReadObservation) → Memᴰ x (kept ∷ reads) → Memᴰ x longer)
    → ((x : ReadObservation) → Memᴰ x longer → (x ≡ other) ⊎ Memᴰ x (kept ∷ reads))
    → Latest (kept ∷ reads) item
    → Latest longer item
with_earlier kept other reads longer item earlier up down h = record {
  read = up item h.read;
  newest = λ x m. elim (down x m) [
    | inl e ↦
        let first = h.newest kept (Memᴰ.head refl) in
        subst (λ y. y.sequence ≤ item.sequence) (sym e) (omega (arith, earlier, first))
    | inr n ↦ h.newest x n
  ];
}

below_other :
    {kept other x : ReadObservation} {reads : List ReadObservation}
    → Memᴰ x (kept ∷ reads)
    → Memᴰ x (kept ∷ other ∷ reads)
below_other (Memᴰ.head e) = Memᴰ.head e
below_other (Memᴰ.tail m) = Memᴰ.tail (Memᴰ.tail m)

out_of_second :
    {kept other x : ReadObservation} {reads : List ReadObservation}
    → Memᴰ x (kept ∷ other ∷ reads)
    → (x ≡ other) ⊎ Memᴰ x (kept ∷ reads)
out_of_second (Memᴰ.head e) = inr (Memᴰ.head e)
out_of_second (Memᴰ.tail (Memᴰ.head e)) = inl e
out_of_second (Memᴰ.tail (Memᴰ.tail m)) = inr (Memᴰ.tail m)

latest_from-Latest :
    (best : ReadObservation) (reads : List ReadObservation)
    → Latest (best ∷ reads) (latest_from best reads)
unfolding latest_from
latest_from-Latest best [] = record {
  read = Memᴰ.head refl;
  newest = λ other m. elim (mem_cases m) [
    | inl e ↦ subst (λ x. x.sequence ≤ best.sequence) (sym e) (omega arith)
    | inr n ↦ elim n [ ]
  ];
}
latest_from-Latest best (item ∷ reads) = elim (Bool-cases (leb best.sequence item.sequence)) [
  | inl above ↦ rw above (
      with_earlier item best reads _ _ (ground (arith, above)) (λ x m. Memᴰ.tail m)
        (λ x m. mem_cases m) (latest_from-Latest item reads))
  | inr below ↦ rw below (
      with_earlier best item reads _ _ (ground (arith, below)) (λ x m. below_other m)
        (λ x m. out_of_second m) (latest_from-Latest best reads))
]

-- A class that is current comes from a read of the target.
latest_class-current :
    (reads : List ReadObservation) (target : ℕ)
    → (latest_class reads target).0 ≡ on_current
    → (item : ReadObservation) × Latest reads item × (item.version ≡ target)
unfolding latest_class latest
latest_class-current [] target h = absurd (ground arith)
latest_class-current (best ∷ reads) target h = (
  latest_from best reads,
  latest_from-Latest best reads,
  elim (Bool-cases ((latest_from best reads).version == target)) [
    | inl same ↦ (==_iff _ _).0 same
    | inr other ↦ absurd (ground (arith, h, other))
  ],
)

module _ (observations : List ReadObservation) (cutover_sequence cutoff_sequence target : ℕ)
    (counts : ReadObservation → Bool) where
  abbrev counted_reads : List ReadObservation
  counted_reads = select counts (in_window cutover_sequence cutoff_sequence observations)

  in_window-both :
      (item : ReadObservation)
      → (ltb cutover_sequence item.sequence && leb item.sequence cutoff_sequence) ≡ true
      → (cutover_sequence < item.sequence) × (item.sequence ≤ cutoff_sequence)
  in_window-both item h = (ground (arith, h), ground (arith, h))

  both-in_window :
      (item : ReadObservation)
      → cutover_sequence < item.sequence
      → item.sequence ≤ cutoff_sequence
      → (ltb cutover_sequence item.sequence && leb item.sequence cutoff_sequence) ≡ true
  both-in_window item h k = ground (arith, h, k)

  pub current-Fetched :
      (latest_class counted_reads target).0 ≡ on_current
      → Fetched observations cutover_sequence cutoff_sequence target counts
  unfolding in_window
  current-Fetched h =
      let (item, newest, version) = latest_class-current counted_reads target h in
      let (inside, counted) = mem-select counts _ item newest.read in
      let (seen, window) = mem-select _ observations item inside in
      let (after, before) = in_window-both item window in
      record {
        item = item;
        seen = seen;
        after_cutover = after;
        before_cutoff = before;
        counted = counted;
        fetched_target = version;
        newest = λ other m a b c. newest.newest other (
            select-mem counts _ other (select-mem _ observations other m (both-in_window other a b))
              c);
      }
