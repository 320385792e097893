-- ===== src/Runner/Lifecycle/Held.antt =====
-- The entries of `AppState.controls`, and what keeps them apart (backend/src/runner.rs and
-- backend/src/context.rs).
use doc_craft_agent.Prelude.{
  ◌≤◌, Bool, true, false, ◌&&◌, ◌||◌, suc, ap, ◌∙◌, none, some, [], ◌∷◌, ◌≡◌, inl, inr, refl,
  length, Text, text_eq, text_eq_iff, any, Dict, find, remove, update, find-remove, find-update,
  arith, Bool-cases,
}
use doc_craft_agent.Runner.Lifecycle.{Control, targets_key, cancel_each}

-- The ids differ, the outputs differ, and no run is both cancelled and published while the service
-- is not shutting down, which `down` tells.
abbrev pub Registered : Bool → Dict Control → Type 0
Registered down [] = Unit
Registered down ((id, c) ∷ d) =
    (find id d ≡ none)
    × (any (targets_key c.target) d ≡ false)
    × (down ≡ false → (c.is_cancelled && c.published) ≡ false)
    × Registered down d

abbrev pub Held : Bool → Dict Control → Type 0
Held down d = Registered down d × (length d ≤ 64)

pub remove_absent : (id : Text) (d : Dict Control) → find id d ≡ none → remove id d ≡ d
unfolding find remove
remove_absent id [] h = refl
remove_absent id ((j, c) ∷ d) h = ground (arith, remove_absent id d)

length-remove : (id : Text) (d : Dict Control) → length (remove id d) ≤ length d
unfolding remove
length-remove id [] = omega arith
length-remove id ((j, c) ∷ d) = ground (arith, length-remove id d)

length-update :
    (id : Text) (f : Control → Control) (d : Dict Control) → length (update id f d) ≡ length d
unfolding update
length-update id f [] = refl
length-update id f ((j, c) ∷ d) = ground (arith, length-update id f d)

any-remove :
    (key id : Text) (d : Dict Control)
    → any (targets_key key) d ≡ false
    → any (targets_key key) (remove id d) ≡ false
unfolding remove
any-remove key id [] h = refl
any-remove key id ((j, c) ∷ d) h = ground (arith, any-remove key id d)

Registered-remove :
    (down : Bool) (id : Text) (d : Dict Control) → Registered down d → Registered down (remove id d)
unfolding remove
Registered-remove down id [] h = h
Registered-remove down id ((j, c) ∷ d) h = elim (Bool-cases (text_eq id j)) [
  | inl same ↦ rw same (Registered-remove down id d h.3)
  | inr other ↦ rw other (
    rw (find-remove j id d) (ground arith),
    any-remove c.target id d h.1,
    h.2,
    Registered-remove down id d h.3,
  )
]

update_absent :
    (id : Text) (f : Control → Control) (d : Dict Control) → find id d ≡ none → update id f d ≡ d
unfolding find update
update_absent id f [] h = refl
update_absent id f ((j, c) ∷ d) h = ground (arith, update_absent id f d)

module _ (f : Control → Control) (keeps : (c : Control) → (f c).target ≡ c.target) where
  any-update :
      (key id : Text) (d : Dict Control)
      → any (targets_key key) (update id f d) ≡ any (targets_key key) d
  unfolding update
  any-update key id [] = refl
  any-update key id ((j, c) ∷ d) = ground (arith, keeps c, any-update key id d)

  Registered-update :
      (down : Bool) (id : Text) (d : Dict Control)
      → ((c : Control)
          → find id d ≡ some c
          → down ≡ false
          → ((f c).is_cancelled && (f c).published) ≡ false)
      → Registered down d
      → Registered down (update id f d)
  unfolding find update
  Registered-update down id [] gate h = h
  Registered-update down id ((j, c) ∷ d) gate h = elim (Bool-cases (text_eq id j)) [
    | inl same ↦
        let absent : find id d ≡ none = rw ((text_eq_iff id j).0 same) h.0 in
        rw (same, update_absent id f d absent) (h.0, rw (keeps c) h.1, gate c (ground arith), h.3)
    | inr other ↦ rw other (
      rw (find-update j id f d) (ground (arith, h.0)),
      rw (any-update c.target id d) h.1,
      h.2,
      Registered-update down id d (λ c' e. gate c' (ground arith)) h.3,
    )
  ]

pub Held-same : (down : Bool) (d e : Dict Control) → e ≡ d → Held down d → Held down e
Held-same down d e same h = rw same h

-- the flag of the service, which a step leaves
pub Held-flag : (a b : Bool) (d : Dict Control) → b ≡ a → Held a d → Held b d
Held-flag a b d same h = rw same h

pub Held-remove :
    (down : Bool) (id : Text) (d : Dict Control) → Held down d → Held down (remove id d)
Held-remove down id d h = (Registered-remove down id d h.0, omega (arith, length-remove id d, h.1))

pub Held-update :
    (f : Control → Control) (down : Bool) (d e : Dict Control) (id : Text)
    → ((c : Control) → (f c).target ≡ c.target)
    → ((c : Control)
        → find id d ≡ some c
        → down ≡ false
        → ((f c).is_cancelled && (f c).published) ≡ false)
    → e ≡ update id f d
    → Held down d
    → Held down e
Held-update f down d e id keeps gate same h =
    rw same (Registered-update f keeps down id d gate h.0, omega (arith, length-update id f d, h.1))

-- A shutdown asks nothing more of the gates.
pub Registered-down : (down : Bool) (d : Dict Control) → Registered down d → Registered true d
Registered-down down [] h = h
Registered-down down ((id, c) ∷ d) h = (h.0, h.1, (λ e. cc), Registered-down down d h.3)

find-cancel_each :
    (id : Text) (d : Dict Control) → find id d ≡ none → find id (cancel_each d) ≡ none
unfolding find cancel_each
find-cancel_each id [] h = refl
find-cancel_each id ((j, c) ∷ d) h = ground (arith, find-cancel_each id d)

any-cancel_each :
    (key : Text) (d : Dict Control)
    → any (targets_key key) (cancel_each d) ≡ any (targets_key key) d
unfolding cancel_each
any-cancel_each key [] = refl
any-cancel_each key ((j, c) ∷ d) = ap (λ b. text_eq c.target key || b) (any-cancel_each key d)

pub Held-cancel_each : (d : Dict Control) → Held true d → Held true (cancel_each d)
unfolding cancel_each
Held-cancel_each [] h = h
Held-cancel_each ((id, c) ∷ d) (h, l) =
    let (rest, short) = Held-cancel_each d (h.3, omega arith) in
    (
      (find-cancel_each id d h.0, any-cancel_each c.target d ∙ h.1, (λ e. cc), rest),
      omega (arith, length-cancel_each d),
    )
  where
    length-cancel_each : (d : Dict Control) → length (cancel_each d) ≡ length d
    length-cancel_each [] = refl
    length-cancel_each ((j, c) ∷ d) = ap suc (length-cancel_each d)
