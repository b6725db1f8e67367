-- ===== src/Hfp/Handshake/Completion.antt =====
-- What a handshake of src/hfp_mcp/hfp/handshake.py that succeeds has done.
use hermes_phone_hfp.Prelude.{
  ℕ, Bool, true, false, ◌&&◌, Option, none, some, List, [], ◌∷◌, ◌++◌, ◌≡◌, refl, sym, ◌∙◌, ap,
  arith, if◌then◌else◌, ltb, ◌||◌, length, false, true,
}
use mathlib.Core.Path.{subst}
use mathlib.Core.List.{append_assoc, append-nil}
use hermes_phone_hfp.Prelude.Text.{Text, codes}
use hermes_phone_hfp.Prelude.Result.{Result, ok, err}
use hermes_phone_hfp.State.Types.{ConnectionState, HfpState, publish}
use hermes_phone_hfp.State.Connection.{set_handshake_complete}
use hermes_phone_hfp.Prelude.Int.{ℤ, pos, negsuc}
use hermes_phone_hfp.Hfp.Results.{PayloadError, parse_cind_definition}
use hermes_phone_hfp.Hfp.Command.{
  cmd_brsf, cmd_cind_list, cmd_cind_read, cmd_cmer, cmd_chld_list, cmd_clip_enable,
}
use hermes_phone_hfp.Hfp.Handshake.{
  HandshakeError, Exchange, Slc, Config, H, ◌>>=◌, ◌>>◌, execute, exchanged, parse_feature_mask,
  mask_of, ensure_current_generation, has_bit, definition_of, indicators_from, or_raise,
  indicators_of, largest_index, invalid_result, too_few_values, omitted, raise, give, lacks, modify,
  exchange_features, read_indicators, execute_if, complete, run,
}

-- A bind that succeeds has two parts that succeed.
>>=-eq-ok :
    {A B : Type 0} (m : H A) (f : A → H B) (s t : Slc) (b : B)
    → (m >>= f) s ≡ (ok b, t)
    → (a : A) × (u : Slc) × (m s ≡ (ok a, u)) × (f a u ≡ (ok b, t))
unfolding ◌>>=◌
>>=-eq-ok {A} {B} m f s t b h = split (m s) refl
  where
    split :
        (x : Result HandshakeError A × Slc)
        → m s ≡ x
        → (a : A) × (u : Slc) × (m s ≡ (ok a, u)) × (f a u ≡ (ok b, t))
    split (ok a, u) e = (a, u, e, (rw e at h))
    split (err why, u) e = absurd (ground (arith, (rw e at h)))

-- A step gives these commands to the broker, if it succeeds.
Sends : {A : Type 0} → List Text → H A → Type 0
Sends {A} commands m = (s t : Slc) (a : A) → m s ≡ (ok a, t) → t.sent ≡ s.sent ++ commands

>>=-Sends :
    {A B : Type 0} (these those : List Text) (m : H A) (f : A → H B)
    → Sends these m
    → ((a : A) → Sends those (f a))
    → Sends (these ++ those) (m >>= f)
unfolding Sends
>>=-Sends these those m f h k s t b e =
    let (a, u, first, second) = >>=-eq-ok m f s t b e in
    k a u t b second ∙ ap (λ l. l ++ those) (h s u a first) ∙ append_assoc s.sent these those

execute-Sends : (command : Text) → Sends (command ∷ []) (execute command)
unfolding execute Sends
execute-Sends command s t a e = by_case s.exchanges e
  where
    by_case :
        (xs : List Exchange) → exchanged command s xs ≡ (ok a, t) → t.sent ≡ s.sent ++ command ∷ []
    by_case [] h = absurd (ground (arith, h))
    by_case (x ∷ rest) h = ap (λ p. p.1.sent) (sym h)

-- A step that leaves the broker alone.
IsQuiet : {A : Type 0} → H A → Type 0
IsQuiet {A} m = (s : Slc) → (m s).1.sent ≡ s.sent

quiet-Sends : {A : Type 0} (m : H A) → IsQuiet m → Sends [] m
unfolding Sends IsQuiet
quiet-Sends m q s t a e = ap (λ p. p.1.sent) (sym e) ∙ q s ∙ sym (append-nil s.sent)

or_raise-IsQuiet : {A : Type 0} (e : HandshakeError) (m : Option A) → IsQuiet (or_raise e m)
unfolding IsQuiet
or_raise-IsQuiet e none s = refl
or_raise-IsQuiet e (some a) s = refl

mask-IsQuiet : (payload : Text) → IsQuiet (parse_feature_mask payload)
unfolding parse_feature_mask IsQuiet
mask-IsQuiet payload s = by_case _
  where
    by_case : (m : Option ℤ) → (mask_of m s).1.sent ≡ s.sent
    by_case (some (pos n)) = refl
    by_case (some (negsuc n)) = refl
    by_case none = refl

ensure-IsQuiet : (generation : ℕ) → IsQuiet (ensure_current_generation generation)
unfolding ensure_current_generation IsQuiet
ensure-IsQuiet generation s = ground arith

if-IsQuiet :
    {A : Type 0} (b : Bool) (m n : H A) → IsQuiet m → IsQuiet n → IsQuiet (if b then m else n)
unfolding IsQuiet
if-IsQuiet true m n h k = h
if-IsQuiet false m n h k = k

definition-IsQuiet : (payload : Text) → IsQuiet (definition_of payload)
unfolding IsQuiet
definition-IsQuiet payload =
    let d = parse_cind_definition payload in
    if-IsQuiet (lacks (codes "call") d || lacks (codes "callsetup") d) (raise omitted) (give d)
      (λ s. refl) (λ s. refl)

indicators-IsQuiet :
    (d : List (Text × ℕ)) (m : Result PayloadError (List ℤ)) → IsQuiet (indicators_from d m)
unfolding IsQuiet
indicators-IsQuiet d (err e) = λ s. refl
indicators-IsQuiet d (ok values) =
    if-IsQuiet (ltb (length values) (largest_index d)) (raise too_few_values)
      (or_raise invalid_result (indicators_of d values)) (λ s. refl)
      (or_raise-IsQuiet invalid_result (indicators_of d values))

>>-Sends :
    {A B : Type 0} (these those : List Text) (m : H A) (n : H B)
    → Sends these m
    → Sends those n
    → Sends (these ++ those) (m >> n)
unfolding ◌>>◌
>>-Sends these those m n h k = >>=-Sends these those m (λ _. n) h (λ _. k)

give-IsQuiet : {A : Type 0} (a : A) → IsQuiet (give a)
unfolding IsQuiet
give-IsQuiet a s = refl

execute_if-Sends :
    (b : Bool) (command : Text) → Sends (if b then command ∷ [] else []) (execute_if b command)
execute_if-Sends true command =
    >>-Sends (command ∷ []) [] _ _ (execute-Sends command) (quiet-Sends _ (give-IsQuiet _))
execute_if-Sends false command = quiet-Sends _ (give-IsQuiet _)

modify-IsQuiet : (f : HfpState → HfpState) → IsQuiet (modify f)
unfolding IsQuiet
modify-IsQuiet f s = refl

exchange_features-Sends : (c : Config) → Sends (cmd_brsf c.hf_features ∷ []) (exchange_features c)
unfolding exchange_features
exchange_features-Sends c = >>=-Sends (_ ∷ []) [] _ _ (execute-Sends _) λ results.
    >>=-Sends [] [] _ _ (quiet-Sends _ (or_raise-IsQuiet {A = Text} omitted _)) λ payload.
      >>=-Sends [] [] _ _ (quiet-Sends _ (mask-IsQuiet payload)) λ remote.
        >>-Sends [] [] _ _ (quiet-Sends _ (ensure-IsQuiet c.generation))
          (>>-Sends [] [] _ _ (quiet-Sends _ (modify-IsQuiet _)) (quiet-Sends _ (give-IsQuiet _)))

read_indicators-Sends :
    (c : Config) → Sends (cmd_cind_list ∷ cmd_cind_read ∷ []) (read_indicators c)
unfolding read_indicators
read_indicators-Sends c = >>=-Sends (_ ∷ []) (_ ∷ []) _ _ (execute-Sends _) λ defined.
    >>=-Sends [] (_ ∷ []) _ _ (quiet-Sends _ (or_raise-IsQuiet {A = Text} omitted _)) λ definition.
      >>=-Sends [] (_ ∷ []) _ _ (quiet-Sends _ (definition-IsQuiet definition)) λ d.
        >>=-Sends (_ ∷ []) [] _ _ (execute-Sends _) λ read.
          >>=-Sends [] [] _ _ (quiet-Sends _ (or_raise-IsQuiet {A = Text} omitted _)) λ payload.
            >>=-Sends [] [] _ _ (quiet-Sends _ (indicators-IsQuiet d _)) λ indicators.
              >>-Sends [] [] _ _ (quiet-Sends _ (ensure-IsQuiet c.generation)) (
                >>-Sends [] [] _ _ (quiet-Sends _ (modify-IsQuiet _))
                  (quiet-Sends _ (modify-IsQuiet _)))

abbrev optional_commands : Config → ℕ → List Text
optional_commands c remote =
    (if has_bit c.hf_features 1 && has_bit remote 0 then cmd_chld_list ∷ [] else [])
    ++ (if has_bit c.hf_features 2 then cmd_clip_enable ∷ [] else [])

abbrev commands_behind : Config → ℕ → List Text
commands_behind c remote = cmd_cind_list ∷ cmd_cind_read ∷ cmd_cmer ∷ optional_commands c remote

-- The commands of a handshake with a gateway of these features, in their order.
abbrev pub commands_of : Config → ℕ → List Text
commands_of c remote = cmd_brsf c.hf_features ∷ commands_behind c remote

>>-Sends_quiet :
    {A B : Type 0} (these : List Text) (m : H A) (n : H B)
    → Sends these m
    → Sends [] n
    → Sends these (m >> n)
>>-Sends_quiet these m n h k =
    subst (λ l. Sends l (m >> n)) (append-nil these) (>>-Sends these [] m n h k)

abbrev IsEstablished : Config → Slc → Type 0
IsEstablished c t =
    (t.state.connection.connection_state ≡ ConnectionState.connected)
    × (t.state.connection.connection_generation ≡ c.generation)

complete-IsEstablished :
    (c : Config) (s t : Slc) (u : Unit {0}) → complete c s ≡ (ok u, t) → IsEstablished c t
unfolding set_handshake_complete publish
complete-IsEstablished c s t u h = ground (arith, h)

complete-IsQuiet : (c : Config) → IsQuiet (complete c)
unfolding IsQuiet set_handshake_complete
complete-IsQuiet c s = ground arith

-- Where a step ends, if it succeeds.
Reaches : {A : Type 0} → (Slc → Type 0) → H A → Type 0
Reaches {A} P m = (s t : Slc) (a : A) → m s ≡ (ok a, t) → P t

>>-Reaches :
    {A B : Type 0} (P : Slc → Type 0) (m : H A) (n : H B) → Reaches P n → Reaches P (m >> n)
unfolding Reaches ◌>>◌
>>-Reaches P m n h s t b e =
    let (a, u, first, second) = >>=-eq-ok m (λ _. n) s t b e in h u t b second

-- What `run` does behind the exchange of features.
abbrev continued : Config → ℕ → H (Unit {0})
continued c remote = do
  read_indicators c
  execute_if true cmd_cmer
  execute_if (has_bit c.hf_features 1 && has_bit remote 0) cmd_chld_list
  execute_if (has_bit c.hf_features 2) cmd_clip_enable
  ensure_current_generation c.generation
  complete c

continued-IsEstablished : (c : Config) (remote : ℕ) → Reaches (IsEstablished c) (continued c remote)
unfolding Reaches
continued-IsEstablished c remote = >>-Reaches (IsEstablished c) _ _ (
    >>-Reaches (IsEstablished c) _ _ (
      >>-Reaches (IsEstablished c) _ _ (
        >>-Reaches (IsEstablished c) _ _
          (>>-Reaches (IsEstablished c) _ _ (complete-IsEstablished c)))))

continued-Sends : (c : Config) (remote : ℕ) → Sends (commands_behind c remote) (continued c remote)
continued-Sends c remote = >>-Sends (_ ∷ _ ∷ []) _ _ _ (read_indicators-Sends c) (
    >>-Sends (_ ∷ []) _ _ _ (execute_if-Sends true cmd_cmer) (
      >>-Sends _ _ _ _ (execute_if-Sends _ cmd_chld_list) (
        >>-Sends_quiet _ _ _ (execute_if-Sends _ cmd_clip_enable) (
          >>-Sends [] [] _ _ (quiet-Sends _ (ensure-IsQuiet c.generation))
            (quiet-Sends _ (complete-IsQuiet c))))))

pub slc_established :
    (c : Config) (s t : Slc)
    → run c s ≡ (ok tt, t)
    → (t.state.connection.connection_state ≡ ConnectionState.connected)
      × (t.state.connection.connection_generation ≡ c.generation)
      × ((remote : ℕ) × (u : Slc) × (exchange_features c s ≡ (ok remote, u))
          × (t.sent ≡ s.sent ++ commands_of c remote))
unfolding run Sends Reaches
slc_established c s t h =
    let (remote, u, first, second) = >>=-eq-ok (exchange_features c) (continued c) s t tt h in
    let (connected, generation) = continued-IsEstablished c remote u t tt second in
    let before = exchange_features-Sends c s u remote first in
    let behind = continued-Sends c remote u t tt second in
    (
      connected,
      generation,
      (
        remote,
        u,
        first,
        behind ∙ ap (λ l. l ++ commands_behind c remote) before ∙ append_assoc s.sent (_ ∷ []) _,
      ),
    )
