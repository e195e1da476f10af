-- ===== src/Common/Extensions/Order.antt =====
-- The execution order: after any registrations it is by priority, then by registration.
use operator_go.Prelude.{
  ℕ, ◌+◌, ◌^◌, ◌≤◌, ◌<◌, true, List, [], ◌∷◌, ◌≡◌, ◌⊎◌, inl, inr, All, All-map, All-append, length,
  arith, ltb→lt, lt→ltb, sym, ◌∙◌, ◌↔◌, Bool-cases,
}
use operator_go.Prelude.Int.{ℤ, pos, negsuc, ltz, eqz, eqz→eq, ltz_trans, ltz_irrefl, ltz_total}
use operator_go.Prelude.Sort.{
  EachBefore, StrictlySorted, StrictlySorted-EachBefore, StrictlySorted-IsComparable,
  IsComparable-concat, sort_by-StrictlySorted, sort_by-All,
}
use operator_go.Common.Extensions.{
  ExtensionEntry, RegistrationOption, runs_before, add_entry, ExtensionRegistry,
  new_extension_registry, register_cluster_extension, register_role_extension,
  register_role_group_extension, take_seq, clear,
}

-- `a` is of a higher priority, or of the same and was registered earlier.
abbrev pub Precedes : {T : Type 0} → ExtensionEntry T → ExtensionEntry T → Type 0
Precedes a b = (ltz b.priority a.priority ≡ true) ⊎ ((a.priority ≡ b.priority) × (a.seq < b.seq))

eqz_refl : (a : ℤ) → eqz a a ≡ true
eqz_refl (pos n) = ground arith
eqz_refl (negsuc n) = ground arith

-- The comparison of `addEntry` decides that order.
runs_before_iff : {T : Type 0} (a b : ExtensionEntry T) → (runs_before a b ≡ true) ↔ Precedes a b
unfolding runs_before
runs_before_iff a b = elim (Bool-cases (eqz a.priority b.priority)) [
  | inl same ↦
      let e = eqz→eq a.priority b.priority same in
      rw same (
        λ h. inr (e, ltb→lt a.seq b.seq h),
        λ p. elim p [
          | inl higher ↦ cc (sym (ltz_irrefl b.priority), rw e at higher)
          | inr later ↦ lt→ltb a.seq b.seq later.1
        ],
      )
  | inr other ↦ rw other (
    λ h. inl h,
    λ p. elim p [ inl higher ↦ higher | inr later ↦ cc (eqz_refl b.priority, rw later.0 at other) ],
  )
]

StrictlySorted-Precedes :
    {T : Type 0} (entries : List (ExtensionEntry T))
    → StrictlySorted runs_before entries
    → EachBefore Precedes entries
StrictlySorted-Precedes entries =
    StrictlySorted-EachBefore runs_before Precedes (λ a b. (runs_before_iff a b).0) entries

Precedes-trans :
    {T : Type 0} (a b c : ExtensionEntry T) → Precedes a b → Precedes b c → Precedes a c
Precedes-trans a b c (inl p) (inl q) = inl (ltz_trans c.priority b.priority a.priority q p)
Precedes-trans a b c (inl p) (inr q) = inl (rw (← q.0) p)
Precedes-trans a b c (inr p) (inl q) = inl (rw p.0 q)
Precedes-trans a b c (inr p) (inr q) = inr (p.0 ∙ q.0, omega arith)

runs_before_trans :
    {T : Type 0} (a b c : ExtensionEntry T)
    → runs_before a b ≡ true
    → runs_before b c ≡ true
    → runs_before a c ≡ true
runs_before_trans a b c p q =
    (runs_before_iff a c).1
      (Precedes-trans a b c ((runs_before_iff a b).0 p) ((runs_before_iff b c).0 q))

-- An entry registered later is comparable with an earlier one.
comparable_new :
    {T : Type 0} (a b : ExtensionEntry T)
    → a.seq < b.seq
    → (runs_before a b ≡ true) ⊎ (runs_before b a ≡ true)
comparable_new a b h = elim (Bool-cases (ltz b.priority a.priority)) [
  | inl higher ↦ inl ((runs_before_iff a b).1 (inl higher))
  | inr not_higher ↦ elim (Bool-cases (ltz a.priority b.priority)) [
    | inl lower ↦ inr ((runs_before_iff b a).1 (inl lower))
    | inr not_lower ↦
        inl
          ((runs_before_iff a b).1 (inr (ltz_total a.priority b.priority not_lower not_higher, h)))
  ]
]

-- One list of a registry whose next sequence number is `n`.
record IsOrdered {T : Type 0} (n : ℕ) (entries : List (ExtensionEntry T)) : Type 0 where
  sorted : StrictlySorted runs_before entries
  fresh : All (λ e. e.seq < n) entries

add_entry-IsOrdered :
    {T : Type 0} (n m : ℕ) (entries : List (ExtensionEntry T)) (ext : T)
    (opts : List RegistrationOption)
    → IsOrdered n entries
    → n < m
    → IsOrdered m (add_entry entries ext n opts)
unfolding add_entry
add_entry-IsOrdered n m entries ext opts h lt = record {
  sorted = sort_by-StrictlySorted runs_before runs_before_trans _ (
      IsComparable-concat runs_before entries _
        (StrictlySorted-IsComparable runs_before entries h.sorted)
        (All-map (λ e. e.seq < n) (λ e. (runs_before e _ ≡ true) ⊎ (runs_before _ e ≡ true)) entries
          (λ e k. comparable_new e _ k) h.fresh));
  fresh =
      sort_by-All runs_before (λ e. e.seq < m) _
        (All-append (λ e. e.seq < m) entries _
          (All-map (λ e. e.seq < n) (λ e. e.seq < m) entries (λ e k. omega arith) h.fresh)
          (lt, tt));
}

IsOrdered-weaken :
    {T : Type 0} (n m : ℕ) (entries : List (ExtensionEntry T))
    → IsOrdered n entries
    → n ≤ m
    → IsOrdered m entries
IsOrdered-weaken n m entries h le = record {
  sorted = h.sorted;
  fresh = All-map (λ e. e.seq < n) (λ e. e.seq < m) entries (λ e k. omega arith) h.fresh;
}

-- The operations that change a registry.
pub data Operation (C R G : Type 0) : Type 0 where
  register_cluster : C → List RegistrationOption → Operation C R G
  register_role : R → List RegistrationOption → Operation C R G
  register_role_group : G → List RegistrationOption → Operation C R G
  clear_all : Operation C R G

module _ {C R G : Type 0} where
  abbrev pub operate : ExtensionRegistry C R G → Operation C R G → ExtensionRegistry C R G
  operate r (register_cluster ext opts) = register_cluster_extension r ext opts
  operate r (register_role ext opts) = register_role_extension r ext opts
  operate r (register_role_group ext opts) = register_role_group_extension r ext opts
  operate r clear_all = clear r

  abbrev pub operate_all :
      ExtensionRegistry C R G → List (Operation C R G) → ExtensionRegistry C R G
  operate_all r [] = r
  operate_all r (op ∷ ops) = operate_all (operate r op) ops

  record IsWellFormed (r : ExtensionRegistry C R G) : Type 0 where
    cluster : IsOrdered r.next_seq r.cluster_extensions
    role : IsOrdered r.next_seq r.role_extensions
    role_group : IsOrdered r.next_seq r.role_group_extensions

  -- An operation keeps a well-formed registry so, unless the sequence number wraps.
  operate-IsWellFormed :
      (r : ExtensionRegistry C R G) (op : Operation C R G)
      → r.next_seq + 1 < 2 ^ 64
      → IsWellFormed r
      → IsWellFormed (operate r op) × ((operate r op).next_seq ≤ r.next_seq + 1)
  unfolding register_cluster_extension register_role_extension register_role_group_extension
      take_seq clear
  operate-IsWellFormed r (register_cluster ext opts) lt h = (
    record {
      cluster =
          add_entry-IsOrdered r.next_seq _ r.cluster_extensions ext opts h.cluster (omega arith);
      role = IsOrdered-weaken r.next_seq _ r.role_extensions h.role (omega arith);
      role_group = IsOrdered-weaken r.next_seq _ r.role_group_extensions h.role_group (omega arith);
    },
    omega arith,
  )
  operate-IsWellFormed r (register_role ext opts) lt h = (
    record {
      cluster = IsOrdered-weaken r.next_seq _ r.cluster_extensions h.cluster (omega arith);
      role = add_entry-IsOrdered r.next_seq _ r.role_extensions ext opts h.role (omega arith);
      role_group = IsOrdered-weaken r.next_seq _ r.role_group_extensions h.role_group (omega arith);
    },
    omega arith,
  )
  operate-IsWellFormed r (register_role_group ext opts) lt h = (
    record {
      cluster = IsOrdered-weaken r.next_seq _ r.cluster_extensions h.cluster (omega arith);
      role = IsOrdered-weaken r.next_seq _ r.role_extensions h.role (omega arith);
      role_group =
          add_entry-IsOrdered r.next_seq _ r.role_group_extensions ext opts h.role_group
            (omega arith);
    },
    omega arith,
  )
  operate-IsWellFormed r clear_all lt h = (
    record {
      cluster = record { sorted = tt; fresh = tt };
      role = record { sorted = tt; fresh = tt };
      role_group = record { sorted = tt; fresh = tt };
    },
    omega arith,
  )

  operate_all-IsWellFormed :
      (r : ExtensionRegistry C R G) (ops : List (Operation C R G))
      → r.next_seq + length ops < 2 ^ 64
      → IsWellFormed r
      → IsWellFormed (operate_all r ops)
  operate_all-IsWellFormed r [] lt h = h
  operate_all-IsWellFormed r (op ∷ ops) lt h =
      let (keeps, next) = operate-IsWellFormed r op (omega arith) h in
      operate_all-IsWellFormed (operate r op) ops (omega arith) keeps

  new-IsWellFormed : IsWellFormed (new_extension_registry {C = C} {R = R} {G = G})
  unfolding new_extension_registry
  new-IsWellFormed = record {
    cluster = record { sorted = tt; fresh = tt };
    role = record { sorted = tt; fresh = tt };
    role_group = record { sorted = tt; fresh = tt };
  }

  -- After any registrations and clears, fewer than 2^64 in all, a new registry's three lists run
  -- highest priority first, and earlier registrations first among equal priorities: each entry has
  -- a higher priority than every later one, or the same priority and a smaller sequence number.
  pub registrations_ordered :
      (ops : List (Operation C R G))
      → length ops < 2 ^ 64
      → let r = operate_all new_extension_registry ops in
        EachBefore Precedes r.cluster_extensions
        × EachBefore Precedes r.role_extensions
        × EachBefore Precedes r.role_group_extensions
  unfolding new_extension_registry
  registrations_ordered ops lt =
      let r = operate_all new_extension_registry ops in
      let h = operate_all-IsWellFormed new_extension_registry ops (omega arith) new-IsWellFormed in
      (
        StrictlySorted-Precedes r.cluster_extensions h.cluster.sorted,
        StrictlySorted-Precedes r.role_extensions h.role.sorted,
        StrictlySorted-Precedes r.role_group_extensions h.role_group.sorted,
      )
