-- ===== src/Triggers/Rules/Selected.antt =====
-- What `select_matching_rules` returns: the rules that match, each as often as it was given, in the
-- order of the key.
use bbz_platform.Prelude.{
  str_lt, pos_part, neg_part, ltb, ◌+◌, ◌<◌, ◌⊎◌, Bool, true, false, List, [], ◌∷◌, ok, err, ◌>>=◌,
  >>=-eq-ok, ok_injective, Result-cases, Bool-cases, inl, inr, ◌≡◌, sym, ap, subst, ◌∙◌, length,
  filter, sorted, insert_sorted, length-filter-sorted, str_lt_asym, arith,
}
use bbz_platform.RuleDsl.Value.{Fields}
use bbz_platform.Triggers.Rules.{
  CandidateRule, rule_matches, rule_lt, matching, select_matching_rules,
}

rule_lt_asym : (r s : CandidateRule) → rule_lt r s ≡ true → rule_lt s r ≡ false
rule_lt_asym r s h = ground (arith, str_lt_asym r.rule_id s.rule_id, h)

-- no rule of the list has a smaller key than the one before it
abbrev After : CandidateRule → List CandidateRule → Type 0
After r [] = Unit
After r (s ∷ rest) = rule_lt s r ≡ false

abbrev IsOrdered : List CandidateRule → Type 0
IsOrdered [] = Unit
IsOrdered (r ∷ rest) = After r rest × IsOrdered rest

After-insert_sorted :
    (s r : CandidateRule) (rest : List CandidateRule)
    → rule_lt r s ≡ false
    → After s rest
    → After s (insert_sorted rule_lt r rest)
unfolding insert_sorted
After-insert_sorted s r [] a h = a
After-insert_sorted s r (t ∷ rest) a h = elim (Bool-cases (rule_lt t r)) [
  | inl e ↦ rw e h
  | inr e ↦ rw e a
]

IsOrdered-insert_sorted :
    (r : CandidateRule) (rest : List CandidateRule)
    → IsOrdered rest
    → IsOrdered (insert_sorted rule_lt r rest)
unfolding insert_sorted
IsOrdered-insert_sorted r [] h = (tt, tt)
IsOrdered-insert_sorted r (s ∷ rest) h = elim (Bool-cases (rule_lt s r)) [
  | inl e ↦
      rw e
        (After-insert_sorted s r rest (rule_lt_asym s r e) h.0, IsOrdered-insert_sorted r rest h.1)
  | inr e ↦ rw e (e, h)
]

IsOrdered-sorted : (rules : List CandidateRule) → IsOrdered (sorted rule_lt rules)
unfolding sorted
IsOrdered-sorted [] = tt
IsOrdered-sorted (r ∷ rules) =
    IsOrdered-insert_sorted r (sorted rule_lt rules) (IsOrdered-sorted rules)

-- `r` has the smaller priority, or the same and an id that is not behind
abbrev pub Precedes : CandidateRule → CandidateRule → Type 0
Precedes r s =
    (pos_part r.priority + neg_part s.priority < pos_part s.priority + neg_part r.priority)
    ⊎ ((pos_part r.priority + neg_part s.priority ≡ pos_part s.priority + neg_part r.priority)
        × (str_lt s.rule_id r.rule_id ≡ false))

-- each rule of the list precedes the next
abbrev pub IsByKey : List CandidateRule → Type 0
IsByKey [] = Unit
IsByKey (r ∷ []) = Unit
IsByKey (r ∷ s ∷ rest) = Precedes r s × IsByKey (s ∷ rest)

Precedes-rule_lt : (r s : CandidateRule) → rule_lt s r ≡ false → Precedes r s
Precedes-rule_lt r s h =
    elim (Bool-cases (
      ltb (pos_part r.priority + neg_part s.priority)
        (pos_part s.priority + neg_part r.priority))) [
          | inl e ↦ inl (ground (arith, e))
          | inr e ↦ inr (ground (arith, e, h), ground (arith, e, h))
        ]

IsOrdered-IsByKey : (rules : List CandidateRule) → IsOrdered rules → IsByKey rules
IsOrdered-IsByKey [] h = tt
IsOrdered-IsByKey (r ∷ []) h = tt
IsOrdered-IsByKey (r ∷ s ∷ rest) h = (Precedes-rule_lt r s h.0, IsOrdered-IsByKey (s ∷ rest) h.1)

-- the rule matches the signal
abbrev pub matches : Fields → CandidateRule → Bool
matches signal r = elim (rule_matches r.conditions signal) [ ok b ↦ b | err _ ↦ false ]

kept_first :
    (r : CandidateRule) (rules : List CandidateRule) (signal : Fields)
    → rule_matches r.conditions signal ≡ ok true
    → (r ∷ filter (matches signal) rules) ≡ filter (matches signal) (r ∷ rules)
kept_first r rules signal h = ground (arith, h)

matching-filter :
    (rules rs : List CandidateRule) (signal : Fields)
    → matching rules signal ≡ ok rs
    → rs ≡ filter (matches signal) rules
unfolding matching
matching-filter [] rs signal h = sym (ok_injective h)
matching-filter (r ∷ rules) rs signal h = elim (Result-cases (rule_matches r.conditions signal)) [
  | inr (e, raised) ↦ absurd (cc (rw (raised, matching) at h))
  | inl (b, answered) ↦ elim (Bool-cases b) [
    | inl t ↦
        let kept : (matching rules signal >>= λ xs. ok (r ∷ xs)) ≡ ok rs =
          ground (arith, answered, t, h) in
        let (rest, p, q) = >>=-eq-ok (matching rules signal) (λ xs. ok (r ∷ xs)) kept in
        sym (ok_injective q)
        ∙ (ap (λ xs. r ∷ xs) (matching-filter rules rest signal p)
            ∙ kept_first r rules signal (answered ∙ ap ok t))
    | inr f ↦
        matching-filter rules rs signal (ground (arith, answered, f, h))
        ∙ ground (arith, answered, f)
  ]
]

-- In a selection that returns each rule has a smaller priority than the next, or the same priority
-- and an id that is not behind, and the rules are those that match the signal: of rules of any kind
-- as many as match among those given.
pub select_matching_rules_sound :
    (rules rs : List CandidateRule) (signal : Fields)
    → select_matching_rules rules signal ≡ ok rs
    → IsByKey rs
      × ((kind : CandidateRule → Bool)
          → length (filter kind rs) ≡ length (filter kind (filter (matches signal) rules)))
unfolding select_matching_rules
select_matching_rules_sound rules rs signal h =
    let (found, p, q) = >>=-eq-ok (matching rules signal) (λ xs. ok (sorted rule_lt xs)) h in
    let same = ok_injective q in
    (
      subst IsByKey same (IsOrdered-IsByKey (sorted rule_lt found) (IsOrdered-sorted found)),
      λ kind.
          ap (λ xs. length (filter kind xs)) (sym same)
          ∙ (length-filter-sorted kind rule_lt found
              ∙ ap (λ xs. length (filter kind xs)) (matching-filter rules found signal p)),
    )
