-- ===== src/Payload/Exchange/Orders.antt =====
-- payload/exchange_batch_orders_stress.go: which orders a batch creates and cancels.
use chain_stresser.Common.{
  ℕ, zero, suc, ◌+◌, ◌*◌, ◌≡◌, refl, sym, ap, ◌∙◌, arith, Bool, true, false, Option, none, some,
  List, [], ◌∷◌, ◌++◌, append_assoc, if◌then◌else◌, length,
}
use mathlib.Core.List.{append-nil}
use chain_stresser.Common.Bytes.{Bytes}
use chain_stresser.Payload.Exchange.{
  Decimals, Order, BatchUpdate, ExchangeProvider, Draws, derivative_order, spot_order,
  cancel_derivative, cancel_spot, add_derivatives, add_spots, empty_update, batch_update,
}

-- 0 + 1 + ... + (n - 1)
abbrev pub sum_to : ℕ → ℕ
sum_to zero = 0
sum_to (suc n) = sum_to n + n

abbrev pub last_of {ℓ} : {A : Type ℓ} → List A → List A
last_of [] = []
last_of (x ∷ []) = x ∷ []
last_of (x ∷ y ∷ ys) = last_of (y ∷ ys)

-- What the loops leave in a list of markets to cancel.
abbrev cancelled : Bool → List Bytes → List Bytes → List Bytes
cancelled cancel [] old = old
cancelled cancel (x ∷ xs) old = cancelled cancel xs (if cancel then x ∷ [] else old)

cancelled-last_of :
    (cancel : Bool) (x : Bytes) (xs old : List Bytes)
    → cancelled cancel (x ∷ xs) old ≡ (if cancel then last_of (x ∷ xs) else old)
cancelled-last_of true x [] old = refl
cancelled-last_of true x (y ∷ ys) old = cancelled-last_of true y ys (x ∷ [])
cancelled-last_of false x [] old = refl
cancelled-last_of false x (y ∷ ys) old = cancelled-last_of false y ys old

cancelled_first :
    (cancel : Bool) (xs : List Bytes) → cancelled cancel xs [] ≡ (if cancel then last_of xs else [])
cancelled_first true [] = refl
cancelled_first false [] = refl
cancelled_first cancel (x ∷ xs) = cancelled-last_of cancel x xs []

module _ (dec : Decimals) where
  open dec use {Decimal, of_int, of_int_with_prec, add, mul, add-of_int}

  -- From index `k` on, with the price `base` before index 0: order for order the market's id, the
  -- sender and the account, the quantity, the price and the margin.
  abbrev pub Matches :
      Bytes
      → Bytes
      → Decimal
      → (Decimal → Option Decimal)
      → ℕ
      → ℕ
      → List Bytes
      → List (Order Decimal)
      → Type 0
  Matches sender account quantity margin base k [] [] = Unit
  Matches sender account quantity margin base k [] (o ∷ os) = ⊥
  Matches sender account quantity margin base k (x ∷ xs) [] = ⊥
  Matches sender account quantity margin base k (x ∷ xs) (o ∷ os) =
      (o ≡ record {
        market_id = x;
        margin = margin (of_int (base + 1000 * sum_to (suc k)));
        subaccount_id = account;
        fee_recipient = sender;
        price = of_int (base + 1000 * sum_to (suc k));
        quantity = quantity;
      })
      × Matches sender account quantity margin base (suc k) xs os

  next_price :
      (base k : ℕ)
      → add (of_int (base + 1000 * sum_to k)) (of_int (k * 1000))
        ≡ of_int (base + 1000 * sum_to (suc k))
  next_price base k = add-of_int (base + 1000 * sum_to k) (k * 1000) ∙ ap of_int (omega arith)

  abbrev pub with_margin : Decimal → Decimal → Option Decimal
  with_margin quantity price = some (mul price quantity)

  abbrev pub without_margin : Decimal → Option Decimal
  without_margin price = none

  module _ (sender account : Bytes) (quantity : Decimal) where
    cancel_derivative-fields :
        (cancel : Bool) (x : Bytes) (m : BatchUpdate Decimal)
        → ((cancel_derivative dec sender account quantity cancel x m).derivative_orders_to_create
            ≡ m.derivative_orders_to_create)
          × ((cancel_derivative dec sender account quantity cancel x m).spot_orders_to_create
              ≡ m.spot_orders_to_create)
          × ((cancel_derivative dec sender account quantity cancel x
                m).derivative_market_ids_to_cancel_all
              ≡ (if cancel then x ∷ [] else m.derivative_market_ids_to_cancel_all))
          × ((cancel_derivative dec sender account quantity cancel x
                m).spot_market_ids_to_cancel_all
              ≡ m.spot_market_ids_to_cancel_all)
    cancel_derivative-fields true x m = (refl, refl, refl, refl)
    cancel_derivative-fields false x m = (refl, refl, refl, refl)

    cancel_spot-fields :
        (cancel : Bool) (x : Bytes) (m : BatchUpdate Decimal)
        → ((cancel_spot dec sender account quantity cancel x m).spot_orders_to_create
            ≡ m.spot_orders_to_create)
          × ((cancel_spot dec sender account quantity cancel x m).derivative_orders_to_create
              ≡ m.derivative_orders_to_create)
          × ((cancel_spot dec sender account quantity cancel x m).spot_market_ids_to_cancel_all
              ≡ (if cancel then x ∷ [] else m.spot_market_ids_to_cancel_all))
          × ((cancel_spot dec sender account quantity cancel x
                m).derivative_market_ids_to_cancel_all
              ≡ m.derivative_market_ids_to_cancel_all)
    cancel_spot-fields true x m = (refl, refl, refl, refl)
    cancel_spot-fields false x m = (refl, refl, refl, refl)

    add_derivatives-Matches :
        (cancel : Bool) (base k : ℕ) (xs : List Bytes) (price : Decimal) (m : BatchUpdate Decimal)
        → price ≡ of_int (base + 1000 * sum_to k)
        → (p : Decimal) × (m' : BatchUpdate Decimal) × (new : List (Order Decimal))
          × (add_derivatives dec sender account quantity cancel k xs price m ≡ (p, m'))
          × (p ≡ of_int (base + 1000 * sum_to (k + length xs)))
          × Matches sender account quantity (with_margin quantity) base k xs new
          × (m'.derivative_orders_to_create ≡ m.derivative_orders_to_create ++ new)
          × (m'.spot_orders_to_create ≡ m.spot_orders_to_create)
          × (m'.derivative_market_ids_to_cancel_all
              ≡ cancelled cancel xs m.derivative_market_ids_to_cancel_all)
          × (m'.spot_market_ids_to_cancel_all ≡ m.spot_market_ids_to_cancel_all)
    unfolding add_derivatives
    add_derivatives-Matches cancel base k [] price m h = (
      price,
      m,
      [],
      refl,
      h ∙ ap (λ (j : ℕ). of_int (base + 1000 * sum_to j)) (omega arith),
      tt,
      sym (append-nil m.derivative_orders_to_create),
      refl,
      refl,
      refl,
    )
    add_derivatives-Matches cancel base k (x ∷ xs) price m h =
        let price' = of_int (base + 1000 * sum_to (suc k)) in
        let o = derivative_order dec sender account quantity cancel x price' in
        let m1 : BatchUpdate Decimal = record m {
          derivative_orders_to_create = m.derivative_orders_to_create ++ o ∷ [];
        } in
        let (os1, ss1, dc1, sc1) = cancel_derivative-fields cancel x m1 in
        let (p, m', new, e, last, matches, os, ss, dc, sc) =
          add_derivatives-Matches cancel base (suc k) xs price'
            (cancel_derivative dec sender account quantity cancel x m1) refl in
        (
          p,
          m',
          o ∷ new,
          rw (add_derivatives, h, next_price base k) e,
          last ∙ ap (λ (j : ℕ). of_int (base + 1000 * sum_to j)) (omega arith),
          (refl, matches),
          os ∙ ap (λ l. l ++ new) os1 ∙ append_assoc m.derivative_orders_to_create (o ∷ []) new,
          ss ∙ ss1,
          dc ∙ ap (cancelled cancel xs) dc1,
          sc ∙ sc1,
        )

    add_spots-Matches :
        (cancel : Bool) (base k : ℕ) (xs : List Bytes) (price : Decimal) (m : BatchUpdate Decimal)
        → price ≡ of_int (base + 1000 * sum_to k)
        → (p : Decimal) × (m' : BatchUpdate Decimal) × (new : List (Order Decimal)) × (add_spots dec
              sender account quantity cancel k xs price m
            ≡ (p, m'))
          × (p ≡ of_int (base + 1000 * sum_to (k + length xs)))
          × Matches sender account quantity without_margin base k xs new
          × (m'.spot_orders_to_create ≡ m.spot_orders_to_create ++ new)
          × (m'.derivative_orders_to_create ≡ m.derivative_orders_to_create)
          × (m'.spot_market_ids_to_cancel_all ≡ cancelled cancel xs m.spot_market_ids_to_cancel_all)
          × (m'.derivative_market_ids_to_cancel_all ≡ m.derivative_market_ids_to_cancel_all)
    unfolding add_spots
    add_spots-Matches cancel base k [] price m h = (
      price,
      m,
      [],
      refl,
      h ∙ ap (λ (j : ℕ). of_int (base + 1000 * sum_to j)) (omega arith),
      tt,
      sym (append-nil m.spot_orders_to_create),
      refl,
      refl,
      refl,
    )
    add_spots-Matches cancel base k (x ∷ xs) price m h =
        let price' = of_int (base + 1000 * sum_to (suc k)) in
        let o = spot_order dec sender account quantity cancel x price' in
        let m1 : BatchUpdate Decimal = record m {
          spot_orders_to_create = m.spot_orders_to_create ++ o ∷ [];
        } in
        let (os1, ss1, dc1, sc1) = cancel_spot-fields cancel x m1 in
        let (p, m', new, e, last, matches, os, ss, dc, sc) =
          add_spots-Matches cancel base (suc k) xs price'
            (cancel_spot dec sender account quantity cancel x m1) refl in
        (
          p,
          m',
          o ∷ new,
          rw (add_spots, h, next_price base k) e,
          last ∙ ap (λ (j : ℕ). of_int (base + 1000 * sum_to j)) (omega arith),
          (refl, matches),
          os ∙ ap (λ l. l ++ new) os1 ∙ append_assoc m.spot_orders_to_create (o ∷ []) new,
          ss ∙ ss1,
          dc ∙ ap (cancelled cancel xs) dc1,
          sc ∙ sc1,
        )

  -- From a drawn price of 1000 to 9000 in thousands, the batch has one order for each derivative market
  -- and one for each spot market, in the order of the configuration: the k-th price of a loop is the
  -- price before it and 1000 * (0 + 1 + ... + k), the spot loop going on from the last derivative
  -- price; a derivative order's margin is its price times the quantity. Of the markets to cancel,
  -- each loop leaves the last one only, when its draw says so, and none otherwise.
  pub batch_update-Matches :
      (p : ExchangeProvider) (d : Draws) (sender account : Bytes)
      → let quantity = of_int_with_prec (d.quantity + 1) 2 in
        let base = (d.price + 1) * 1000 in
        Matches sender account quantity
          (with_margin quantity)
          base
          0
          p.derivative_market_ids
          (batch_update dec p d sender account).derivative_orders_to_create
        × Matches sender account quantity without_margin
            (base + 1000 * sum_to (length p.derivative_market_ids))
            0
            p.spot_market_ids
            (batch_update dec p d sender account).spot_orders_to_create
        × ((batch_update dec p d sender account).derivative_market_ids_to_cancel_all
            ≡ (if d.should_cancel_derivative then last_of p.derivative_market_ids else []))
        × ((batch_update dec p d sender account).spot_market_ids_to_cancel_all
            ≡ (if d.should_cancel_spot then last_of p.spot_market_ids else []))
        × ((batch_update dec p d sender account).sender ≡ sender)
  unfolding batch_update
  batch_update-Matches p d sender account =
      let quantity = of_int_with_prec (d.quantity + 1) 2 in
      let base = (d.price + 1) * 1000 in
      let ids = p.derivative_market_ids in
      let (price, m, os, e, at, matches, orders, spots, cancels, spot_cancels) =
        add_derivatives-Matches sender account quantity d.should_cancel_derivative base 0 ids
          (of_int base) (empty_update dec) (ap of_int (omega arith)) in
      let (price', m', os', e', at', matches', orders', spots', cancels', spot_cancels') =
        add_spots-Matches sender account quantity d.should_cancel_spot
          (base + 1000 * sum_to (length ids)) 0 p.spot_market_ids price m
          (at ∙ ap of_int (grind arith)) in
      let whole : batch_update dec p d sender account ≡ record m' { sender = sender } =
        rw (batch_update, e, e') refl in
      rw (whole, orders', spots', cancels', spot_cancels', orders, spots, cancels, spot_cancels)
        (
          matches,
          matches',
          cancelled_first d.should_cancel_derivative ids,
          cancelled_first d.should_cancel_spot p.spot_market_ids,
          refl,
        )
