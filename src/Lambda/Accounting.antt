-- ===== src/Lambda/Accounting.antt =====
-- What the usage of revisions, the bases and the sets of ids say after each change.
use meltica_gateway.Common.{
  ℕ, Bool, false, not, ◌&&◌, ◌||◌, ◌≡◌, refl, ap, ◌∙◌, Option, none, some, List, [], ◌∷◌, ◌++◌,
  nat_eq, nat_eq_iff, if◌then◌else◌, or_else, inl, inr, Option-cases, Bool-cases, arith,
}
use meltica_gateway.Common.Text.{Text, text_beq, text_beq_iff, text_eq}
use meltica_gateway.Common.Map.{Map, get, put, get-put}
use meltica_gateway.Schema.Order.{Time}
use meltica_gateway.Dispatcher.Table.Match.{has_text}
use meltica_gateway.Lambda.Spec.{StrategySpec}
use meltica_gateway.Lambda.Usage.{
  RevisionUsage, new_revision_usage, add_instance, remove_text, remove_instance, build_revision_key,
  revision_key, ensure_revision_usage, mark_instance_running, mark_instance_stopped,
  normalize_strategy_name, normalize_revision_hash,
}
use meltica_gateway.Lambda.Manager.{Instance, cancel}

-- The usage of a revision lists an instance.
unfoldable pub entry_has : Option RevisionUsage → Text → Bool
entry_has none id = false
entry_has (some u) id = has_text u.instances id

unfoldable pub usage_has : Map Text RevisionUsage → Text → Text → Bool
usage_has usage key id = entry_has (get usage key) id

-- An instance runs under a revision's key.
unfoldable pub runs_under : Option Instance → Text → Bool
runs_under none key = false
runs_under (some inst) key = text_beq inst.rev_key key

-- The bases of an id.
unfoldable pub bases_of : List (Text × ℕ) → Text → List ℕ
bases_of [] id = []
bases_of ((j, p) ∷ live) id =
    let rest = bases_of live id in if text_beq j id then p ∷ rest else rest

unfoldable pub base_list : Option Instance → List ℕ
base_list none = []
base_list (some inst) = inst.base ∷ []

unfoldable pub without : List ℕ → ℕ → List ℕ
without [] p = []
without (q ∷ bases) p = let rest = without bases p in if nat_eq q p then rest else q ∷ rest

pub has_text-remove_text :
    (xs : List Text) (id j : Text)
    → has_text (remove_text xs id) j ≡ (has_text xs j && not (text_beq j id))
unfolding has_text remove_text
has_text-remove_text [] id j = refl
has_text-remove_text (x ∷ xs) id j =
    ground
      (arith, has_text-remove_text xs id j, text_beq_iff id x, text_beq_iff j x, text_beq_iff j id)

has_text-add_instance :
    (u : RevisionUsage) (id j : Text) (now : Time)
    → text_beq id [] ≡ false
    → has_text (add_instance u id now).instances j ≡ (has_text u.instances j || text_beq j id)
unfolding add_instance has_text
has_text-add_instance u id j now named = ground (arith, text_beq_iff j id)

has_text-remove_instance :
    (u : RevisionUsage) (id j : Text) (now : Time)
    → text_beq id [] ≡ false
    → has_text (remove_instance u id now).instances j
      ≡ (has_text u.instances j && not (text_beq j id))
unfolding remove_instance
has_text-remove_instance u id j now named =
    ground (arith, has_text-remove_text u.instances id j, text_beq_iff j id)

-- A separator makes a text that is not blank.
append-named : (t u : Text) (c : ℕ) → text_beq (t ++ c ∷ u) [] ≡ false
unfolding text_beq
append-named [] u c = refl
append-named (d ∷ t) u c = refl

pub revision_key-named : {C : Type 0} (s : StrategySpec C) → text_beq (revision_key s) [] ≡ false
unfolding revision_key build_revision_key
revision_key-named s =
    append-named (normalize_strategy_name s.identifier) (normalize_revision_hash s.hash) 0x1f

usage_has-put :
    (usage : Map Text RevisionUsage) (key : Text) (u : RevisionUsage) (k j : Text)
    → usage_has (put usage key u) k j
      ≡ (if text_beq key k then has_text u.instances j else usage_has usage k j)
unfolding usage_has entry_has
usage_has-put usage key u k j =
    ap (λ o. entry_has o j) (get-put usage key k u)
    ∙ elim (Bool-cases (text_beq key k)) [ inl p ↦ rw p | inr p ↦ rw p ]

has_text-or_else :
    (o : Option RevisionUsage) (strategy hash j : Text)
    → has_text (or_else o (new_revision_usage strategy hash)).instances j ≡ entry_has o j
unfolding entry_has new_revision_usage has_text
has_text-or_else none strategy hash j = refl
has_text-or_else (some u) strategy hash j = refl

pub usage_has-ensure :
    {C : Type 0} (usage : Map Text RevisionUsage) (s : StrategySpec C) (k j : Text)
    → usage_has (ensure_revision_usage usage s) k j ≡ usage_has usage k j
unfolding ensure_revision_usage usage_has entry_has has_text new_revision_usage
usage_has-ensure usage s k j =
    let key = revision_key s in
    let fresh =
      new_revision_usage (normalize_strategy_name s.identifier) (normalize_revision_hash s.hash) in
    elim (Option-cases (get usage key)) [
      | inl p ↦
          rw (ensure_revision_usage, p)
            (usage_has-put usage key fresh k j ∙ ground (arith, p, text_beq_iff key k))
      | inr (u, p) ↦ rw (ensure_revision_usage, p)
    ]

pub usage_has-mark_running :
    {C : Type 0} (usage : Map Text RevisionUsage) (s : StrategySpec C) (id : Text) (now : Time)
    (k j : Text)
    → text_beq id [] ≡ false
    → usage_has (mark_instance_running usage s id now) k j
      ≡ (usage_has usage k j || (text_beq (revision_key s) k && text_beq j id))
unfolding mark_instance_running usage_has
usage_has-mark_running usage s id now k j named =
    let key = revision_key s in
    let name = normalize_strategy_name s.identifier in
    let hash = normalize_revision_hash s.hash in
    let old = or_else (get usage key) (new_revision_usage name hash) in
    usage_has-put usage key (add_instance old id now) k j
    ∙ ground (
      arith,
      has_text-add_instance old id j now named,
      has_text-or_else (get usage key) name hash j,
      text_beq_iff key k,
    )

pub usage_has-mark_stopped :
    (usage : Map Text RevisionUsage) (key id : Text) (now : Time) (k j : Text)
    → text_beq id [] ≡ false
    → text_beq key [] ≡ false
    → usage_has (mark_instance_stopped usage key id now) k j
      ≡ (usage_has usage k j && not (text_beq key k && text_beq j id))
unfolding mark_instance_stopped usage_has entry_has
usage_has-mark_stopped usage key id now k j named keyed = elim (Option-cases (get usage key)) [
  | inl p ↦ rw (keyed, p) (ground (arith, p, text_beq_iff key k))
  | inr (u, p) ↦
      rw (keyed, p)
        (usage_has-put usage key (remove_instance u id now) k j
          ∙ ground (arith, p, has_text-remove_instance u id j now named, text_beq_iff key k))
]

-- What a base that is cancelled leaves.
pub bases_of-cancel :
    (live : List (Text × ℕ)) (id : Text) (p : ℕ) (j : Text)
    → bases_of (cancel live id p) j
      ≡ (if text_beq id j then without (bases_of live j) p else bases_of live j)
unfolding bases_of cancel without
bases_of-cancel [] id p j = ground (arith)
bases_of-cancel ((i, q) ∷ live) id p j = ground (
  arith,
  bases_of-cancel live id p j,
  text_beq_iff i id,
  text_beq_iff i j,
  text_beq_iff id j,
  nat_eq_iff q p,
)
