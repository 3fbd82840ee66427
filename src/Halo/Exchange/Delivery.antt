-- ===== src/Halo/Exchange/Delivery.antt =====
-- The exchange of core/HaloExchanger.cpp on a mesh whose ranks agree about their neighbours: each
-- receive meets one message, and the halo takes the neighbour's values from before the exchange.
use mathlib.Core.Path.{fun_ext}
use frehg.Prelude.{
  ℕ, ◌<◌, ◌≡◌, refl, sym, ap, inl, inr, Bool, true, false, ◌&&◌, ◌||◌, ◌==◌, if◌then◌else◌, arith,
  Option, none, some, List, [], ◌∷◌, ◌∙◌, Bool-cases, Option-cases,
}
use frehg.Halo.Messages.{Direction, plane_indices}
use frehg.Halo.Exchange.{
  Store, Mesh, unpack_all, number, message_count, message, deliver, receive, exchange_selected,
}
use frehg.Halo.Exchange.Buffers.{
  value, levels, in_zone, mem, pack_all-Holds, unpack_all_lem, plane_count-levels, plane_value,
}
use frehg.Halo.Exchange.Opposites.{
  opposite, IsMesh, is_opposite, tags_pair, is_opposite-eq, opposite-number, has,
}
use frehg.Halo.Exchange.Refreshed.{mirrored_value, refreshed}

and_false : (p q : Bool) → (p && false && q) ≡ false
and_false p q = ground arith

==_refl : (n : ℕ) → (n == n) ≡ true
==_refl n = ground arith

or_later : (p : Bool) {q : Bool} → q ≡ true → (p || q) ≡ true
or_later true h = refl
or_later false h = h

or_now : (n : ℕ) (q : Bool) → (n == n || q) ≡ true
or_now n q = ground arith

goes_to_lem : (o : Option ℕ) (r : ℕ) → o ≡ some r → elim o [ none ↦ false | some p ↦ p == r ] ≡ true
goes_to_lem o r e = ground arith

module _ {W : Type 0} (mesh : Mesh) (agreed : IsMesh mesh) (wide_rows : Bool) (selected : List ℕ)
    (old : ℕ → Direction → ℕ → W) (world : ℕ → Store W) (depth : ℕ → ℕ)
    (kinds : (r i : ℕ) → r < mesh.ranks → levels (mesh.extents r) (world r i) ≡ depth i) where
  message_count-eq :
      (r q : ℕ) (dir : Direction) (sel : List ℕ)
      → r < mesh.ranks
      → mesh.neighbour r dir ≡ some q
      → message_count (mesh.extents q) (opposite dir) wide_rows (world q) sel
        ≡ message_count (mesh.extents r) dir wide_rows (world r) sel
  unfolding message_count
  message_count-eq r q dir [] m e = refl
  message_count-eq r q dir (i ∷ sel) m e =
      let there = plane_count-levels (mesh.extents q) (opposite dir) wide_rows (world q i) in
      let here = plane_count-levels (mesh.extents r) dir wide_rows (world r i) in
      rw
        (
          there,
          here,
          kinds r i m,
          kinds q i (agreed.inside r q dir m e),
          agreed.same_rows r q dir wide_rows m e,
          message_count-eq r q dir sel m e,
        )
        refl

  deliver_lem :
      (dirs : List Direction) (r q : ℕ) (dir : Direction)
      → r < mesh.ranks
      → mesh.neighbour r dir ≡ some q
      → has dirs (opposite dir) ≡ true
      → deliver mesh wide_rows selected old world dirs q r dir
        ≡ some (message mesh wide_rows selected old world q (opposite dir))
  unfolding deliver
  deliver_lem [] r q dir m e h = cc
  deliver_lem (d ∷ ds) r q dir m e h = elim (Bool-cases (is_opposite d dir)) [
    | inl pair ↦
        let at : d ≡ opposite dir = is_opposite-eq d dir pair in
        rw
          (
            tags_pair d dir,
            pair,
            at,
            message_count-eq r q dir selected m e,
            goes_to_lem (mesh.neighbour q (opposite dir)) r (agreed.mirrored r q dir m e),
            ==_refl (message_count (mesh.extents r) dir wide_rows (world r) selected),
          )
          refl
    | inr other ↦
        rw (tags_pair d dir, other, and_false)
          (deliver_lem ds r q dir m e (rw (sym (opposite-number d dir) ∙ other) at h))
  ]

  -- The values of a store after some messages.
  abbrev pub Refreshed : List Direction → ℕ → Store W → Store W → Type 0
  Refreshed rest r store out =
      (idx a b c : ℕ)
      → c < depth idx
      → value (out idx) a b c
        ≡ refreshed mesh wide_rows selected world rest r idx a b c (value (store idx) a b c)

  -- One message, unpacked.
  receive_one :
      (r q : ℕ) (dir : Direction) (store : Store W)
      → r < mesh.ranks
      → mesh.neighbour r dir ≡ some q
      → ((i : ℕ) → levels (mesh.extents r) (store i) ≡ depth i)
      → let out =
          unpack_all
            (mesh.extents r)
            dir
            wide_rows
            selected
            0
            (message mesh wide_rows selected old world q (opposite dir))
            store in
        ((idx a b c : ℕ)
          → c < depth idx
          → value (out idx) a b c ≡ (
              if mem idx selected && in_zone (mesh.extents r) dir wide_rows a b
              then mirrored_value mesh wide_rows selected world q dir idx a b c
              else value (store idx) a b c))
        × ((i : ℕ) → levels (mesh.extents r) (out i) ≡ depth i)
  unfolding message
  receive_one r q dir store m e same =
      unpack_all_lem (mesh.extents r) dir wide_rows depth
        (λ i.
          plane_value (opposite dir) wide_rows (plane_indices (opposite dir) (mesh.extents q)).send
            (world q i))
        selected 0 _ store same
        (rw
          (
            ← agreed.same_rows r q dir wide_rows m e,
            ← fun_ext (λ i. kinds q i (agreed.inside r q dir m e)),
          )
          (pack_all-Holds (mesh.extents q) (opposite dir) wide_rows (world q) selected 0
            (old q (opposite dir))))

  receive_lem :
      (dirs rest : List Direction) (r : ℕ) (store : Store W)
      → r < mesh.ranks
      → ((i : ℕ) → levels (mesh.extents r) (store i) ≡ depth i)
      → ((dir : Direction) → has rest dir ≡ true → has dirs (opposite dir) ≡ true)
      → (out : Store W) × (receive mesh wide_rows selected old world dirs rest r store ≡ some out)
        × Refreshed rest r store out
        × ((i : ℕ) → levels (mesh.extents r) (out i) ≡ depth i)
  unfolding receive
  receive_lem dirs [] r store m same paired = (store, refl, (λ idx a b c h. refl), same)
  receive_lem dirs (dir ∷ rest) r store m same paired = elim (Option-cases (mesh.neighbour r dir)) [
    | inl e ↦
        let (out, ran, got, kept) =
          receive_lem dirs rest r store m same
            (λ d h. paired d (or_later (number dir == number d) h)) in
        (out, rw (e, receive) ran, (λ idx a b c h. rw e (got idx a b c h)), kept)
    | inr (q, e) ↦
        let (one, same') = receive_one r q dir store m e same in
        let (out, ran, got, kept) =
          receive_lem dirs rest r _ m same'
            (λ d h. paired d (or_later (number dir == number d) h)) in
        (
          out,
          rw (e, receive, deliver_lem dirs r q dir m e (paired dir (or_now (number dir) _))) ran,
          (λ idx a b c h. rw e (
              got idx a b c h
              ∙ ap (refreshed mesh wide_rows selected world rest r idx a b c) (one idx a b c h))),
          kept,
        )
  ]

  -- On a mesh whose ranks agree, and for directions that come with their opposites, every receive
  -- gets its message, and the selected fields of a rank then hold, in the zone of each direction that
  -- has a neighbour, the values that the neighbour had before the exchange, and all else as before.
  pub exchange_selected_lem :
      (dirs : List Direction) (r : ℕ)
      → r < mesh.ranks
      → ((dir : Direction) → has dirs dir ≡ true → has dirs (opposite dir) ≡ true)
      → (out : Store W) × (exchange_selected mesh wide_rows selected old world dirs r ≡ some out)
        × Refreshed dirs r (world r) out
        × ((i : ℕ) → levels (mesh.extents r) (out i) ≡ depth i)
  unfolding exchange_selected
  exchange_selected_lem dirs r m paired =
      receive_lem dirs dirs r (world r) m (λ i. kinds r i m) paired
