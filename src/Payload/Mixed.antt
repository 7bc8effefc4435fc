-- ===== src/Payload/Mixed.antt =====
-- payload/mixed_payload.go: several providers, one of which is drawn for every call.
pub mod Draw
use chain_stresser.Common.{
  ℕ, zero, suc, ◌≡◌, Bool, true, false, Option, none, some, List, [], ◌∷◌, ◌++◌, map, Result, ok,
  err, ◌>>=◌, if◌then◌else◌, length, get_elem?, ◌-◌,
}
use mathlib.Core.Option
use chain_stresser.Common.Float.{Floats}

-- The nine sections of the YAML file, in the order in which they are looked at.
pub data Kind : Type 0 where
  bank_send : Kind
  bank_multi_send : Kind
  eth_send : Kind
  eth_call : Kind
  eth_deploy : Kind
  exchange_batch_orders : Kind
  wasm_store_code : Kind
  wasm_init_contract : Kind
  wasm_exec_contract : Kind

abbrev pub kinds : List Kind
kinds =
    bank_send ∷ bank_multi_send ∷ eth_send ∷ eth_call ∷ eth_deploy ∷ exchange_batch_orders
    ∷ wasm_store_code ∷ wasm_init_contract ∷ wasm_exec_contract ∷ []

pub data MixedError : Type 0 where
  failed_to_create : Kind → MixedError
  no_payload_providers : MixedError

pub record MixedPayloadProvider (F P : Type 0) : Type 0 where
  pub providers : List P
  pub frequencies : List F

module _ (fl : Floats) where
  open fl use {Float, zero_f, ltb_f, leb_f, eqb_f, add_f, div_f}

  unfoldable pub sum_f : Float → List Float → Float
  sum_f total [] = total
  sum_f total (f ∷ fs) = sum_f (add_f total f) fs

  unfoldable pub normalize_frequencies : List Float → List Float
  unfolding sum_f
  normalize_frequencies fs =
      let total = sum_f zero_f fs in if eqb_f total zero_f then fs else map (λ f. div_f f total) fs

  -- The loop of `selectProvider`, from any index: the index of the provider, or `none` at the end.
  unfoldable pub select_from : Float → Float → ℕ → List Float → Option ℕ
  select_from r cumulative i [] = none
  select_from r cumulative i (f ∷ fs) =
      let rest = select_from r (add_f cumulative f) (suc i) fs in
      if leb_f r (add_f cumulative f) then some i else rest

  module _ {P : Type 0} where
    -- What one section adds: nothing unless it is there with a frequency above 0.
    abbrev pub add_section :
        Kind
        → Option Float
        → Option P
        → List P × List Float
        → Result MixedError (List P × List Float)
    add_section k none created s = ok s
    add_section k (some f) none s = if ltb_f zero_f f then err (failed_to_create k) else ok s
    add_section k (some f) (some p) s =
        if ltb_f zero_f f then ok (s.0 ++ p ∷ [], s.1 ++ f ∷ []) else ok s

    unfoldable pub add_sections :
        (Kind → Option Float)
        → (Kind → Option P)
        → List Kind
        → List P × List Float
        → Result MixedError (List P × List Float)
    add_sections frequency create [] s = ok s
    add_sections frequency create (k ∷ ks) s = do
      s' ← add_section k (frequency k) (create k) s
      add_sections frequency create ks s'

    abbrev pub finish : List P × List Float → Result MixedError (MixedPayloadProvider Float P)
    finish ([], fs) = err no_payload_providers
    finish (p ∷ ps, fs) = ok (record { providers = p ∷ ps; frequencies = normalize_frequencies fs })

    -- `frequency` is `Frequency` of a section that is there, `create` the section's constructor.
    unfoldable pub new_mixed_payload_provider :
        (Kind → Option Float) → (Kind → Option P) → Result MixedError (MixedPayloadProvider Float P)
    new_mixed_payload_provider frequency create = do
      s ← add_sections frequency create kinds ([], [])
      finish s

    abbrev pub or_last : List P → Option ℕ → Option P
    or_last ps none = get_elem? ps (length ps - 1)
    or_last ps (some i) = get_elem? ps i

    -- `none` is an index out of range. `r` is the random number.
    unfoldable pub select_provider : MixedPayloadProvider Float P → Float → Option P
    select_provider m r = or_last m.providers (select_from r zero_f 0 m.frequencies)

    -- Each method of the mixed payload draws a provider of its own. `r` is the drawn number, `call`
    -- the same method of the provider.
    unfoldable pub with_selected :
        {R : Type 0} → MixedPayloadProvider Float P → Float → (P → R) → Option R
    with_selected m r call = Option.map call (select_provider m r)
