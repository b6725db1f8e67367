-- ===== src/Media/Stale.antt =====
-- Leases of src/hfp_mcp/media.py over any sequence of method calls.
use hermes_phone_hfp.Prelude.{
  ℕ, ◌≤◌, ◌<◌, String, Bool, true, false, ◌&&◌, Option, none, some, List, [], ◌∷◌, ◌++◌, ◌≡◌, refl,
  sym, arith, inl, inr, Bool-cases, eq_iff, All, take, ◌∙◌, str_eq,
}
use hermes_phone_hfp.Prelude.Text.{Text, text_eq, text_eq→eq}
use hermes_phone_hfp.Prelude.Decimal.{decimal, is_digit, digits-decimal, decimal_injective}
use hermes_phone_hfp.Prelude.Result.{ok}
use hermes_phone_hfp.Media
use hermes_phone_hfp.Media.{
  MediaLease, MediaLeaseManager, ContractError, new_manager, stream_name, is_media_owner, lease_eq,
  acquire_held, release_held, other_stream, is_lease,
}
use hermes_phone_hfp.Media.Steps.{Op, apply, run}

-- Texts of digits that are followed by a dash are told apart by the digits.
dashed-injective :
    (s t x y : Text)
    → All (λ c. is_digit c ≡ true) s
    → All (λ c. is_digit c ≡ true) t
    → s ++ b'-' ∷ x ≡ t ++ b'-' ∷ y
    → s ≡ t
dashed-injective [] [] x y hs ht e = refl
dashed-injective [] (d ∷ t) x y hs ht e = ground (arith, ht.0)
dashed-injective (c ∷ s) [] x y hs ht e = ground (arith, hs.0)
dashed-injective (c ∷ s) (d ∷ t) x y hs ht e = ground (arith, dashed-injective s t x y hs.1 ht.1)

pub stream_name-injective : (g h : ℕ) (x y : Text) → stream_name g x ≡ stream_name h y → g ≡ h
unfolding stream_name
stream_name-injective g h x y e = decimal_injective g h (
    dashed-injective (decimal g) (decimal h) (take 12 x) (take 12 y) (digits-decimal g)
      (digits-decimal h) (ground arith))

-- The lease was issued after generation `g`, in the current generation, to an admitted owner and a
-- call that has a name, and carries the name of its generation.
pub record IsIssued (g now : ℕ) (l : MediaLease) : Type 0 where
  pub later : g < l.generation
  pub latest : l.generation ≡ now
  pub admitted : is_media_owner l.owner ≡ true
  pub called : str_eq l.call_id "" ≡ false
  pub hex : Text
  pub named : l.stream_id ≡ stream_name l.generation hex

abbrev pub AllIssued : ℕ → ℕ → Option MediaLease → Type 0
AllIssued g now none = Unit
AllIssued g now (some l) = IsIssued g now l

-- What holds from a moment on at which no lease was held and `g` leases had been issued.
abbrev pub IsAfter : ℕ → MediaLeaseManager → Type 0
IsAfter g m = (g ≤ m.generation) × AllIssued g m.generation m.lease

acquire_held-IsAfter :
    (g : ℕ) (hex : Text) (call_id owner : String) (now : ℕ) (held : Option MediaLease)
    → is_media_owner owner ≡ true
    → str_eq call_id "" ≡ false
    → IsAfter g (record { lease = held; generation = now })
    → IsAfter g (acquire_held hex call_id owner (record { lease = held; generation = now }) held).1
acquire_held-IsAfter g hex call_id owner now none o c h = (
  omega (arith, h.0),
  record {
    later = omega (arith, h.0);
    latest = refl;
    admitted = o;
    called = c;
    hex = hex;
    named = refl;
  },
)
acquire_held-IsAfter g hex call_id owner now (some l) o c h =
    elim (Bool-cases (str_eq l.call_id call_id && str_eq l.owner owner)) [
      | inl same ↦ rw same h
      | inr other ↦ rw other h
    ]

acquire-IsAfter :
    (g : ℕ) (hex : Text) (call_id owner : String) (m : MediaLeaseManager)
    → IsAfter g m
    → IsAfter g (Media.acquire hex call_id owner m).1
unfolding Media.acquire
acquire-IsAfter g hex call_id owner m h = elim (Bool-cases (is_media_owner owner)) [
  | inr wrong ↦ rw wrong h
  | inl right ↦ rw right (elim (Bool-cases (str_eq call_id "")) [
    | inl blank ↦ rw blank h
    | inr named ↦
        rw named (acquire_held-IsAfter g hex call_id owner m.generation m.lease right named h)
  ])
]

release_held-IsAfter :
    (g : ℕ) (id : Option Text) (now : ℕ) (held : Option MediaLease)
    → IsAfter g (record { lease = held; generation = now })
    → IsAfter g (release_held id (record { lease = held; generation = now }) held).1
release_held-IsAfter g id now none h = h
release_held-IsAfter g id now (some l) h = elim (Bool-cases (other_stream id l)) [
  | inl other ↦ rw other h
  | inr same ↦ rw same (h.0, tt)
]

release-IsAfter :
    (g : ℕ) (id : Option Text) (m : MediaLeaseManager)
    → IsAfter g m
    → IsAfter g (Media.release id m).1
unfolding Media.release
release-IsAfter g id m h = release_held-IsAfter g id m.generation m.lease h

release_if-IsAfter :
    (g : ℕ) (l : MediaLease) (m : MediaLeaseManager)
    → IsAfter g m
    → IsAfter g (Media.release_if l m).1
unfolding Media.release_if
release_if-IsAfter g l m h = elim (Bool-cases (is_lease m.lease l)) [
  | inl same ↦ rw same (h.0, tt)
  | inr other ↦ rw other h
]

run-IsAfter : (g : ℕ) (ops : List Op) (m : MediaLeaseManager) → IsAfter g m → IsAfter g (run ops m)
unfolding run apply
run-IsAfter g [] m h = h
run-IsAfter g (Op.acquire hex call_id owner ∷ ops) m h =
    run-IsAfter g ops _ (acquire-IsAfter g hex call_id owner m h)
run-IsAfter g (Op.release id ∷ ops) m h = run-IsAfter g ops _ (release-IsAfter g id m h)
run-IsAfter g (Op.release_if l ∷ ops) m h = run-IsAfter g ops _ (release_if-IsAfter g l m h)

-- From the new manager on, by any method calls, a lease that is held was issued last, to one of the
-- four owners, for a call that has an id, and carries the name of its generation.
pub run-AllIssued :
    (ops : List Op) → let m = run ops new_manager in AllIssued 0 m.generation m.lease
run-AllIssued ops = (run-IsAfter 0 ops new_manager (omega arith, tt)).1

-- While a lease is held no other request takes the bridge over: a request that succeeds has the
-- call and the owner of the held lease, is answered by that lease, is told that it was held
-- already, and changes nothing.
pub acquire-held :
    (hex : Text) (call_id owner : String) (m m' : MediaLeaseManager) (held lease : MediaLease)
    (again : Bool)
    → m.lease ≡ some held
    → Media.acquire hex call_id owner m ≡ (ok (lease, again), m')
    → (held.call_id ≡ call_id) × (held.owner ≡ owner) × (lease ≡ held) × (again ≡ true) × (m' ≡ m)
unfolding Media.acquire
acquire-held hex call_id owner m m' held lease again e done =
    ground (arith, eq_iff held.call_id call_id, eq_iff held.owner owner)

acquire-generation :
    (hex : Text) (call_id owner : String) (m : MediaLeaseManager)
    → m.generation ≤ (Media.acquire hex call_id owner m).1.generation
unfolding Media.acquire
acquire-generation hex call_id owner m = ground arith

release-generation :
    (id : Option Text) (m : MediaLeaseManager) → m.generation ≤ (Media.release id m).1.generation
unfolding Media.release
release-generation id m = ground arith

release_if-generation :
    (l : MediaLease) (m : MediaLeaseManager) → m.generation ≤ (Media.release_if l m).1.generation
unfolding Media.release_if
release_if-generation l m = ground arith

run-generation : (ops : List Op) (m : MediaLeaseManager) → m.generation ≤ (run ops m).generation
unfolding run apply
run-generation [] m = omega arith
run-generation (Op.acquire hex call_id owner ∷ ops) m = omega (
  arith,
  acquire-generation hex call_id owner m,
  run-generation ops (Media.acquire hex call_id owner m).1,
)
run-generation (Op.release id ∷ ops) m =
    omega (arith, release-generation id m, run-generation ops (Media.release id m).1)
run-generation (Op.release_if l ∷ ops) m =
    omega (arith, release_if-generation l m, run-generation ops (Media.release_if l m).1)

lease_eq_late : (old l : MediaLease) → old.generation < l.generation → lease_eq l old ≡ false
unfolding lease_eq
lease_eq_late old l h = ground arith

late-is_lease :
    (g now : ℕ) (old : MediaLease) (held : Option MediaLease)
    → old.generation ≤ g
    → AllIssued g now held
    → is_lease held old ≡ false
late-is_lease g now old none before h = refl
late-is_lease g now old (some l) before h = lease_eq_late old l (omega (arith, h.later))

late-other_stream :
    (g now h : ℕ) (hex : Text) (l : MediaLease)
    → h ≤ g
    → IsIssued g now l
    → other_stream (some (stream_name h hex)) l ≡ true
late-other_stream g now h hex l before i =
    elim (Bool-cases (text_eq l.stream_id (stream_name h hex))) [
      | inr apart ↦ rw apart
      | inl same ↦ absurd (
          omega (
            arith,
            before,
            i.later,
            stream_name-injective l.generation h i.hex hex
                (sym i.named ∙ text_eq→eq l.stream_id (stream_name h hex) same),
          ))
    ]

late-release :
    (g now h : ℕ) (hex : Text) (held : Option MediaLease)
    → h ≤ g
    → AllIssued g now held
    → (release_held (some (stream_name h hex)) (record { lease = held; generation = now }) held).1
      ≡ record { lease = held; generation = now }
late-release g now h hex none before i = refl
late-release g now h hex (some l) before i = rw (late-other_stream g now h hex l before i)

-- A lease that was given up can revoke no later lease: once the bridge was free after a lease was
-- held, whatever calls come next, releasing that old lease, by the lease itself or by its stream
-- id, leaves the manager as it is.
pub stale_release :
    (before between after : List Op) (old : MediaLease)
    → (run before new_manager).lease ≡ some old
    → (run between (run before new_manager)).lease ≡ none
    → let m = run after (run between (run before new_manager)) in
      (Media.release_if old m ≡ (none, m)) × ((Media.release (some old.stream_id) m).1 ≡ m)
unfolding Media.release_if Media.release
stale_release before between after old held free =
    let first = run before new_manager in
    let middle = run between first in
    let issued : IsIssued 0 first.generation old = rw held at (run-AllIssued before) in
    let old_lt : old.generation ≤ middle.generation =
      omega (arith, issued.latest, run-generation between first) in
    let late : IsAfter middle.generation (run after middle) =
      run-IsAfter middle.generation after middle (omega arith, rw free tt) in
    (
      rw (late-is_lease middle.generation _ old (run after middle).lease old_lt late.1),
      rw issued.named (
          late-release middle.generation _ old.generation issued.hex (run after middle).lease old_lt
            late.1),
    )
