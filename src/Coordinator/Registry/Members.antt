-- ===== src/Coordinator/Registry/Members.antt =====
-- Who is in the set of a group, and the count of a subscriber, after a join or a leave.
use cordn_rs.Common.{
  ℕ, ◌+◌, ◌-◌, ◌==◌, none, some, Option, List, [], ◌∷◌, ◌++◌, Bool, true, false, not, ◌&&◌, ◌||◌,
  any, retain, is_empty, Str, str_eq, str_discrete, ℕ_discrete, if◌then◌else◌, ◌≡◌, refl, arith,
  or_default, Bool-cases, inl, inr, ap, sym, Option-cases, ◌∙◌,
}
use cordn_rs.Common.Assoc.{
  lookup, adjust, IsMap, lookup-adjust, lookup-upsert, lookup-remove, adjust-IsMap,
}
use cordn_rs.Coordinator.Registry.{SubscriberRegistry, add_id, drop_id, join_group, leave_group}

abbrev pub is_id : ℕ → List ℕ → Bool
is_id id ids = any (λ i. i == id) ids

-- The id is in the set of the group.
abbrev pub is_member : ℕ → Str → SubscriberRegistry → Bool
is_member id g reg = is_id id (or_default (lookup str_discrete g reg.group_subscribers))

-- An entry of the counts: none at 0.
abbrev pub counted : ℕ → Option ℕ
counted n = if n == 0 then none else some n

is_id-append : (id i : ℕ) (ids : List ℕ) → is_id id (ids ++ i ∷ []) ≡ (is_id id ids || i == id)
unfolding any
is_id-append id i [] = ground arith
is_id-append id i (j ∷ ids) = ground (arith, is_id-append id i ids)

is_id-equal : (id i : ℕ) (ids : List ℕ) → i == id ≡ true → is_id i ids ≡ is_id id ids
is_id-equal id i ids e = ap (λ k. is_id k ids) same
  where
    same : i ≡ id
    same = ground (arith, e)

is_id-add_id : (id i : ℕ) (ids : List ℕ) → is_id id (add_id i ids) ≡ (is_id id ids || i == id)
is_id-add_id id i ids = elim (Bool-cases (is_id i ids)) [
  | inl there ↦ rw there (elim (Bool-cases (i == id)) [
    | inl e ↦ ground (arith, sym (is_id-equal id i ids e) ∙ there)
    | inr e ↦ ground (arith, e)
  ])
  | inr absent ↦ rw absent (is_id-append id i ids)
]

is_id-drop_id :
    (id i : ℕ) (ids : List ℕ) → is_id id (drop_id i ids) ≡ (is_id id ids && not (i == id))
unfolding any retain
is_id-drop_id id i [] = refl
is_id-drop_id id i (j ∷ ids) = ground (arith, is_id-drop_id id i ids)

pub is_member-join :
    (id i : ℕ) (g h : Str) (reg : SubscriberRegistry)
    → is_member id g (join_group i h reg) ≡ (is_member id g reg || (str_eq h g && i == id))
unfolding any
is_member-join id i g h reg = ground (
  arith,
  lookup-upsert str_discrete h g [] (add_id i) reg.group_subscribers,
  is_id-add_id id i (or_default (lookup str_discrete g reg.group_subscribers)),
)

is_empty-none : (id : ℕ) (ids : List ℕ) → is_empty ids ≡ true → is_id id ids ≡ false
unfolding any is_empty
is_empty-none id [] e = refl
is_empty-none id (i ∷ ids) e = absurd (cc)

pub is_member-leave :
    (id i : ℕ) (g h : Str) (reg : SubscriberRegistry)
    → IsMap reg.group_subscribers
    → is_member id g (leave_group i h reg) ≡ (is_member id g reg && not (str_eq h g && i == id))
unfolding leave_group any
is_member-leave id i g h reg maps =
    let groups = adjust str_discrete h (drop_id i) reg.group_subscribers in
    let old = lookup str_discrete g reg.group_subscribers in
    elim (Option-cases (lookup str_discrete h groups)) [
      | inl e ↦
          rw (leave_group, e)
            (ground (
              arith,
              e,
              lookup-adjust str_discrete h g (drop_id i) reg.group_subscribers,
              lookup-adjust str_discrete h h (drop_id i) reg.group_subscribers,
              is_id-drop_id id i (or_default old),
            ))
      | inr (ids, e) ↦
          rw (leave_group, e)
            (elim (Bool-cases (is_empty ids)) [
              | inl none_left ↦ rw none_left (
                  ground (
                    arith,
                    e,
                    lookup-adjust str_discrete h g (drop_id i) reg.group_subscribers,
                    lookup-adjust str_discrete h h (drop_id i) reg.group_subscribers,
                    lookup-remove str_discrete h g groups
                        (adjust-IsMap str_discrete h (drop_id i) _ maps),
                    is_id-drop_id id i (or_default old),
                    is_empty-none id ids none_left,
                  ))
              | inr some_left ↦ rw some_left (
                  ground (
                    arith,
                    e,
                    lookup-adjust str_discrete h g (drop_id i) reg.group_subscribers,
                    is_id-drop_id id i (or_default old),
                  ))
            ])
    ]

pub count-join :
    (id i n : ℕ) (h : Str) (reg : SubscriberRegistry)
    → lookup ℕ_discrete id reg.refcounts ≡ counted n
    → lookup ℕ_discrete id (join_group i h reg).refcounts ≡ counted (if i == id then n + 1 else n)
count-join id i n h reg e =
    ground (arith, e, lookup-upsert ℕ_discrete i id 0 (λ n. n + 1) reg.refcounts)

pub count-leave :
    (id i n : ℕ) (h : Str) (reg : SubscriberRegistry)
    → IsMap reg.refcounts
    → lookup ℕ_discrete id reg.refcounts ≡ counted n
    → lookup ℕ_discrete id (leave_group i h reg).refcounts ≡ counted (if i == id then n - 1 else n)
unfolding leave_group
count-leave id i n h reg maps e =
    let counts = adjust ℕ_discrete i (λ n. n - 1) reg.refcounts in
    let at_id = lookup-adjust ℕ_discrete i id (λ n. n - 1) reg.refcounts in
    let at_i = lookup-adjust ℕ_discrete i i (λ n. n - 1) reg.refcounts in
    let gone =
      lookup-remove ℕ_discrete i id counts (adjust-IsMap ℕ_discrete i (λ n. n - 1) _ maps) in
    elim (Option-cases (lookup ℕ_discrete i counts)) [
      | inl f ↦ rw (leave_group, f) (ground (arith, e, f, at_id, at_i))
      | inr (m, f) ↦
          rw (leave_group, f)
            (elim (Bool-cases (m == 0)) [
              | inl zero_left ↦ rw zero_left (ground (arith, e, f, at_id, at_i, gone, zero_left))
              | inr some_left ↦ rw some_left (ground (arith, e, f, at_id, at_i, some_left))
            ])
    ]
