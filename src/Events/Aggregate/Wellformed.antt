-- ===== src/Events/Aggregate/Wellformed.antt =====
-- The fields of an aggregate that `create` made and any calls changed are clean: the title is
-- stripped, not empty and at most 300 characters, the description absent or likewise.
use bbz_platform.Prelude.{
  ℕ, String, false, Option, none, some, List, [], ◌∷◌, ◌++◌, ◌≡◌, ◌≤◌, inl, inr, ok, arith, strip,
  is_blank, str_len, strip_idem, Result-cases,
}
use bbz_platform.Events.Aggregate.Keeps.{then_run-keeps}
use bbz_platform.Events.State.{EventPriority, can_transition}
use bbz_platform.Events.Aggregate.{
  EventAggregate, Change, Command, edit, run, run_all, update, accept, acknowledge, open_event,
  archive, reactivate, assign, take_over, hand_over, emit, transition, create, clean_title,
  clean_description, edit_title, edit_description, edit_priority, finish_update, apply_edits,
  max_title, max_description,
}

pub record IsClean (limit : ℕ) (s : String) : Type 0 where
  pub stripped : strip s ≡ s
  pub filled : is_blank s ≡ false
  pub short : str_len s ≤ limit

abbrev pub IsCleanOption : Option String → Type 0
IsCleanOption none = Unit
IsCleanOption (some s) = IsClean max_description s

pub record IsWellformed (a : EventAggregate) : Type 0 where
  pub title_clean : IsClean max_title a.title
  pub description_clean : IsCleanOption a.description

clean_title-IsClean : (s t : String) → clean_title s ≡ ok t → IsClean max_title t
unfolding clean_title
clean_title-IsClean s t h = ground (arith, strip_idem s)

clean_description-IsClean : (d t : Option String) → clean_description d ≡ ok t → IsCleanOption t
unfolding clean_description
clean_description-IsClean none t h = ground arith
clean_description-IsClean (some s) t h = ground (arith, strip_idem s)

edit_title-IsWellformed :
    (t : Option String) (a : EventAggregate) → IsWellformed a → IsWellformed (edit_title t a).1
unfolding edit_title
edit_title-IsWellformed none a w = w
edit_title-IsWellformed (some s) a w = elim (Result-cases (clean_title s)) [
  | inl (t, e) ↦ ground (arith, e, clean_title-IsClean s t e)
  | inr (x, e) ↦ ground (arith, e)
]

edit_description-IsWellformed :
    (d : Option (Option String)) (a : EventAggregate)
    → IsWellformed a
    → IsWellformed (edit_description d a).1
unfolding edit_description
edit_description-IsWellformed none a w = w
edit_description-IsWellformed (some s) a w = elim (Result-cases (clean_description s)) [
  | inl (t, e) ↦ ground (arith, e, clean_description-IsClean s t e)
  | inr (x, e) ↦ ground (arith, e)
]

edit_priority-IsWellformed :
    (p : Option EventPriority) (a : EventAggregate)
    → IsWellformed a
    → IsWellformed (edit_priority p a).1
unfolding edit_priority
edit_priority-IsWellformed p a w = ground arith

finish_update-IsWellformed :
    (u : ℕ) (made : List Change) (a : EventAggregate)
    → IsWellformed a
    → IsWellformed (finish_update u made a).1
unfolding finish_update emit
finish_update-IsWellformed u made a w = ground arith

apply_edits-IsWellformed :
    (u : ℕ) (t : Option String) (d : Option (Option String)) (p : Option EventPriority)
    (a : EventAggregate)
    → IsWellformed a
    → IsWellformed (apply_edits u t d p a).1
unfolding apply_edits
apply_edits-IsWellformed u t d p a w =
    then_run-keeps IsWellformed (edit_title t a) _ (edit_title-IsWellformed t a w) λ ts b v.
      then_run-keeps IsWellformed (edit_description d b) _ (edit_description-IsWellformed d b v)
        λ ds c x.
          then_run-keeps IsWellformed (edit_priority p c) _ (edit_priority-IsWellformed p c x)
            λ ps e y. finish_update-IsWellformed u (ts ++ ds ++ ps) e y

run-IsWellformed : (c : Command) (a : EventAggregate) → IsWellformed a → IsWellformed (run c a).1
unfolding run update accept acknowledge open_event archive reactivate assign take_over transition
    hand_over emit can_transition
run-IsWellformed (edit u t d p) a w = ground (arith, apply_edits-IsWellformed u t d p a w)
run-IsWellformed c a w = ground arith

create-IsWellformed :
    (id : ℕ) (title : String) (p : EventPriority) (actor : Option ℕ) (d : Option String)
    (bbz workplace : Option ℕ) (source : String) (a : EventAggregate)
    → create id title p actor d bbz workplace source ≡ ok a
    → IsWellformed a
unfolding create
create-IsWellformed id title p actor d bbz workplace source a h =
    elim (Result-cases (clean_title title)) [
      | inl (t, e) ↦ elim (Result-cases (clean_description d)) [
        | inl (k, f) ↦
            ground (arith, e, f, clean_title-IsClean title t e, clean_description-IsClean d k f)
        | inr (x, f) ↦ ground (arith, e, f)
      ]
      | inr (x, e) ↦ ground (arith, e)
    ]

run_all-IsWellformed :
    (cs : List Command) (a : EventAggregate) → IsWellformed a → IsWellformed (run_all cs a)
unfolding run_all
run_all-IsWellformed [] a w = w
run_all-IsWellformed (c ∷ cs) a w = run_all-IsWellformed cs (run c a).1 (run-IsWellformed c a w)

-- Whatever calls follow a `create` that returned, and whichever of them raise, the title is
-- stripped, not empty and at most 300 characters, and the description is absent or likewise, with
-- 20,000 characters.
pub run_all-create-IsWellformed :
    (cs : List Command) (id : ℕ) (title : String) (p : EventPriority) (actor : Option ℕ)
    (d : Option String) (bbz workplace : Option ℕ) (source : String) (a : EventAggregate)
    → create id title p actor d bbz workplace source ≡ ok a
    → IsWellformed (run_all cs a)
run_all-create-IsWellformed cs id title p actor d bbz workplace source a h =
    run_all-IsWellformed cs a (create-IsWellformed id title p actor d bbz workplace source a h)
