-- ===== src/Execution/Order.antt =====
-- The order of the status changes of one command, and of the steps of a recipe.
use cocktail_maker.Prelude.{
  ℕ, ◌≡◌, ◌⊎◌, inl, inr, refl, sym, ap, ◌∙◌, List, [], ◌∷◌, ◌++◌, append-nil, Bool, true, false,
  ◌&&◌, ◌||◌, ◌==◌, ℕ_eq, if◌then◌else◌, arith, Bool-cases,
}
use cocktail_maker.Prelude.Members.{has, has-append}
use cocktail_maker.Recipe.{Command, monostate, manual, dispense, Commands, leaves}
use cocktail_maker.Recipe.Ids.{ids, ids-append}
use cocktail_maker.Execution.{
  CommandStatus, in_progress, finished, StatusChange, Processed, nothing_to_do, manual_done,
  manual_failed, dispense_done, dispense_failed, not_started, Interleaved, both_over, left_next,
  right_next, Joined, no_child, one_more, Executed, all_over, single_done, single_failed,
  group_done, group_failed,
}

-- The changes of one command.
abbrev pub changes_of : ℕ → List StatusChange → List CommandStatus
changes_of i [] = []
changes_of i (e ∷ es) = if e.id == i then e.status ∷ changes_of i es else changes_of i es

changes_of-append :
    (i : ℕ) (es fs : List StatusChange)
    → changes_of i (es ++ fs) ≡ changes_of i es ++ changes_of i fs
changes_of-append i [] fs = refl
changes_of-append i (e ∷ es) fs = ground (arith, changes_of-append i es fs)

abbrev pub AllDistinct : List ℕ → Type 0
AllDistinct [] = Unit
AllDistinct (i ∷ l) = (has i l ≡ false) × AllDistinct l

Interleaved-right :
    (i : ℕ) (es fs gs : List StatusChange)
    → Interleaved es fs gs
    → changes_of i es ≡ []
    → changes_of i gs ≡ changes_of i fs
Interleaved-right i _ _ _ both_over h = refl
Interleaved-right i _ _ _ (left_next e es fs gs s) h = elim (Bool-cases (e.id == i)) [
  | inl same ↦ absurd (ground (arith, h, same))
  | inr other ↦ rw other (Interleaved-right i es fs gs s (ground (arith, h, other)))
]
Interleaved-right i _ _ _ (right_next f es fs gs s) h =
    ground (arith, Interleaved-right i es fs gs s h)

Interleaved-left :
    (i : ℕ) (es fs gs : List StatusChange)
    → Interleaved es fs gs
    → changes_of i fs ≡ []
    → changes_of i gs ≡ changes_of i es
Interleaved-left i _ _ _ both_over h = refl
Interleaved-left i _ _ _ (left_next e es fs gs s) h =
    ground (arith, Interleaved-left i es fs gs s h)
Interleaved-left i _ _ _ (right_next f es fs gs s) h = elim (Bool-cases (f.id == i)) [
  | inl same ↦ absurd (ground (arith, h, same))
  | inr other ↦ rw other (Interleaved-left i es fs gs s (ground (arith, h, other)))
]

-- A prefix of the two changes of a command.
abbrev pub IsBegun : List CommandStatus → Type 0
IsBegun l = (l ≡ []) ⊎ ((l ≡ in_progress ∷ []) ⊎ (l ≡ in_progress ∷ finished ∷ []))

-- The changes of a command that is or is not there, where all completed or not.
abbrev pub Stage : Bool → Bool → List CommandStatus → Type 0
Stage false done l = l ≡ []
Stage true true l = l ≡ in_progress ∷ finished ∷ []
Stage true false l = IsBegun l

Stage-weaker :
    (there done more : Bool) (l : List CommandStatus)
    → Stage there done l
    → Stage there (done && more) l
Stage-weaker false done more l s = s
Stage-weaker true true true l s = s
Stage-weaker true true false l s = inr (inr s)
Stage-weaker true false more l s = s

Stage-later :
    (there later : Bool) (l : List CommandStatus)
    → Stage there false l
    → Stage (there || later) false l
Stage-later false false l s = s
Stage-later false true l s = inl s
Stage-later true later l s = s

and_comm : (a b : Bool) → (a && b) ≡ (b && a)
and_comm true true = refl
and_comm true false = refl
and_comm false true = refl
and_comm false false = refl

Stage-join :
    (a b da db : Bool) (l m both : List CommandStatus)
    → (a && b) ≡ false
    → Stage a da l
    → Stage b db m
    → (l ≡ [] → both ≡ m)
    → (m ≡ [] → both ≡ l)
    → Stage (a || b) (da && db) both
Stage-join true true da db l m both n s t right left = cc
Stage-join true false da db l m both n s t right left = rw (left t) (Stage-weaker true da db l s)
Stage-join false true da db l m both n s t right left =
    rw (right s, and_comm da db) (Stage-weaker true db da m t)
Stage-join false false da db l m both n s t right left = right s ∙ t

distinct_append :
    (l m : List ℕ)
    → AllDistinct (l ++ m)
    → AllDistinct l × (AllDistinct m × ((i : ℕ) → (has i l && has i m) ≡ false))
distinct_append [] m u = (tt, (u, λ i. refl))
distinct_append (j ∷ l) m u =
    let (first, (second, apart)) = distinct_append l m u.1 in
    let new : (has j l || has j m) ≡ false = sym (has-append j l m) ∙ u.0 in
    (
      (ground (arith, new), first),
      (
        second,
        λ i. elim (Bool-cases (j == i)) [
          | inr other ↦ rw other (apart i)
          | inl same ↦
              let e : j ≡ i = (ℕ_eq.equal_iff j i).0 same in
              let gone : (has i l || has i m) ≡ false = rw e at new in ground (arith, same, gone)
        ],
      ),
    )

then-Stage :
    (i : ℕ) (l m : List ℕ) (es fs : List StatusChange) (done : Bool)
    → AllDistinct (l ++ m)
    → Stage (has i l) true (changes_of i es)
    → Stage (has i m) done (changes_of i fs)
    → Stage (has i (l ++ m)) done (changes_of i (es ++ fs))
then-Stage i l m es fs done u s t =
    rw (has-append i l m, changes_of-append i es fs)
      (Stage-join (has i l) (has i m) true done (changes_of i es) (changes_of i fs) _
        ((distinct_append l m u).1.1 i) s t (λ e. ap (λ x. x ++ changes_of i fs) e)
        (λ e. ap (λ x. changes_of i es ++ x) e ∙ append-nil (changes_of i es)))

module _ {Q : Type 0} where
  abbrev own : Command Q → List ℕ
  own c = ids (c ∷ [])

  ids_cons : (c : Command Q) (cs : List (Command Q)) → ids (c ∷ cs) ≡ own c ++ ids cs
  ids_cons monostate cs = refl
  ids_cons (manual m) cs = refl
  ids_cons (dispense d) cs = refl

  Processed-Stage :
      (i : ℕ) (c : Command Q) (es : List StatusChange) (done : Bool)
      → Processed c es done
      → Stage (has i (own c)) done (changes_of i es)
  Processed-Stage i _ _ _ nothing_to_do = refl
  Processed-Stage i _ _ _ (manual_done m) = elim (Bool-cases (m.id == i)) [
    | inl same ↦ rw same refl
    | inr other ↦ rw other refl
  ]
  Processed-Stage i _ _ _ (manual_failed m) = elim (Bool-cases (m.id == i)) [
    | inl same ↦ rw same (inr (inl refl))
    | inr other ↦ rw other refl
  ]
  Processed-Stage i _ _ _ (dispense_done d) = elim (Bool-cases (d.id == i)) [
    | inl same ↦ rw same refl
    | inr other ↦ rw other refl
  ]
  Processed-Stage i _ _ _ (dispense_failed d) = elim (Bool-cases (d.id == i)) [
    | inl same ↦ rw same (inr (inl refl))
    | inr other ↦ rw other refl
  ]
  Processed-Stage i _ _ _ (not_started c) = elim (Bool-cases (has i (own c))) [
    | inl there ↦ rw there (inl refl)
    | inr gone ↦ rw gone refl
  ]

  Joined-Stage :
      (i : ℕ) (cs : List (Command Q)) (es : List StatusChange) (done : Bool)
      → Joined cs es done
      → AllDistinct (ids cs)
      → Stage (has i (ids cs)) done (changes_of i es)
  Joined-Stage i _ _ _ no_child u = refl
  Joined-Stage i _ _ _ (one_more c cs es fs gs done rest_done p j s) u =
      let (_, (rest, apart)) = distinct_append (own c) (ids cs) (rw (ids_cons c cs) at u) in
      rw (ids_cons c cs, has-append i (own c) (ids cs))
        (Stage-join (has i (own c)) (has i (ids cs)) done rest_done (changes_of i es)
          (changes_of i fs) (changes_of i gs) (apart i) (Processed-Stage i c es done p)
          (Joined-Stage i cs fs rest_done j rest) (Interleaved-right i es fs gs s)
          (Interleaved-left i es fs gs s))

  -- Where the ids of the commands are distinct, the status changes of a command are, in this
  -- order, in progress and then finished if the execution completes, and begin like that if it does
  -- not; of an id that no command has, nothing changes.
  pub Executed-Stage :
      (i : ℕ) (cs : Commands Q) (es : List StatusChange) (done : Bool)
      → Executed cs es done
      → AllDistinct (ids (leaves cs))
      → Stage (has i (ids (leaves cs))) done (changes_of i es)
  unfolding leaves
  Executed-Stage i _ _ _ all_over u = refl
  Executed-Stage i _ _ _ (single_done c rest es fs done p x) u =
      let v : AllDistinct (own c ++ ids (leaves rest)) = rw (ids_cons c (leaves rest)) at u in
      rw (ids_cons c (leaves rest)) (
        then-Stage i (own c) (ids (leaves rest)) es fs done v (Processed-Stage i c es true p)
          (Executed-Stage i rest fs done x (distinct_append (own c) (ids (leaves rest)) v).1.0))
  Executed-Stage i _ _ _ (single_failed c rest es p) u =
      rw (ids_cons c (leaves rest), has-append i (own c) (ids (leaves rest)))
        (Stage-later (has i (own c)) (has i (ids (leaves rest))) (changes_of i es)
          (Processed-Stage i c es false p))
  Executed-Stage i _ _ _ (group_done cs rest es fs done j x) u =
      let v : AllDistinct (ids cs ++ ids (leaves rest)) = rw (ids-append cs (leaves rest)) at u in
      let (first, (second, _)) = distinct_append (ids cs) (ids (leaves rest)) v in
      rw (ids-append cs (leaves rest)) (
        then-Stage i (ids cs) (ids (leaves rest)) es fs done v (Joined-Stage i cs es true j first)
          (Executed-Stage i rest fs done x second))
  Executed-Stage i _ _ _ (group_failed cs rest es j) u =
      let v : AllDistinct (ids cs ++ ids (leaves rest)) = rw (ids-append cs (leaves rest)) at u in
      rw (ids-append cs (leaves rest), has-append i (ids cs) (ids (leaves rest)))
        (Stage-later (has i (ids cs)) (has i (ids (leaves rest))) (changes_of i es)
          (Joined-Stage i cs es false j (distinct_append (ids cs) (ids (leaves rest)) v).0))
