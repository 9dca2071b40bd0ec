-- ===== src/MpCache.antt =====
-- pysnmp/proto/mpmod/cache.py: `Cache`, which holds the messages in progress of a message processing
-- model until they are answered or expire. The remembered keyword arguments are a parameter; their
-- `sendPduHandle` is read by a function of it.
pub mod Queue
pub mod Coherent
pub mod Expiry
pub mod Ticks
pub mod Lifetime
mod Tests
use mathlib.Core.Option
use pysnmp.Base.{
  Bool, Option, [], arith, false, if◌then◌else◌, none, some, true, ℕ, ◌+◌, ◌↔◌, ◌∷◌, ◌≡◌,
}
use pysnmp.Base.Eq.{Eq, nat_eq}
use pysnmp.Base.Dict.{Dict, contains, insert, lookup, remove}

-- The two keys of a slot of the expiration queue.
pub data Kind : Type 0 where
  state_reference msg_id : Kind

abbrev pub kind_beq : Kind → Kind → Bool
kind_beq state_reference state_reference = true
kind_beq msg_id msg_id = true
kind_beq _ _ = false

pub kind_beq_iff : (a b : Kind) → (kind_beq a b ≡ true) ↔ (a ≡ b)
kind_beq_iff a b = ground arith

instance abbrev pub kind_eq : Eq Kind
kind_eq = record { beq = kind_beq; beq_iff = kind_beq_iff }

-- What expires at a tick, and the queue of these.
abbrev pub Slot : Type 0
Slot = Dict Kind (Dict ℕ ℕ)

abbrev pub Queue : Type 0
Queue = Dict ℕ Slot

-- A call returns, raises `ProtocolError`, or lets a `KeyError` escape.
pub data Outcome (A : Type 0) : Type 0 where
  done : A → Outcome A
  protocol_error key_error : Outcome A

abbrev pub slot_at : ℕ → Queue → Slot
slot_at expire_at queue = Option.get_or (lookup expire_at queue) []

abbrev pub keys_at : Kind → Slot → Dict ℕ ℕ
keys_at kind slot = Option.get_or (lookup kind slot) []

-- "Schedule to expire": the two levels are made where they are missing.
unfoldable pub schedule : Kind → ℕ → ℕ → Queue → Queue
schedule kind expire_at key queue =
    let slot = slot_at expire_at queue in
    insert expire_at (insert kind (insert key 1 (keys_at kind slot)) slot) queue

-- `del keys[key]`, `none` for the `KeyError` where there are no keys or not this one.
abbrev pub delete_key : ℕ → Option (Dict ℕ ℕ) → Option (Dict ℕ ℕ)
delete_key key none = none
delete_key key (some keys) = if contains key keys then some (remove key keys) else none

abbrev pub unschedule_slot : Kind → ℕ → ℕ → Queue → Option Slot → Option Queue
unschedule_slot kind expire_at key queue none = none
unschedule_slot kind expire_at key queue (some slot) =
    Option.map (λ (keys : Dict ℕ ℕ). insert expire_at (insert kind keys slot) queue)
      (delete_key key (lookup kind slot))

-- `del queue[expireAt][kind][key]`, `none` for a `KeyError` at any of the three.
unfoldable pub unschedule : Kind → ℕ → ℕ → Queue → Option Queue
unschedule kind expire_at key queue =
    unschedule_slot kind expire_at key queue (lookup expire_at queue)

-- The loops of `expireCaches`: `for key in keys: del index[key]`.
unfoldable pub delete_keys : {V : Type 0} → Dict ℕ ℕ → Dict ℕ V → Option (Dict ℕ V)
delete_keys [] index = some index
delete_keys ((key, one) ∷ keys) index =
    let rest = delete_keys keys (remove key index) in if contains key index then rest else none

-- `if kind in cacheInfo`
unfoldable pub delete_kind : {V : Type 0} → Kind → Slot → Dict ℕ V → Option (Dict ℕ V)
unfolding delete_keys
delete_kind kind slot index = delete_keys (keys_at kind slot) index

-- The attributes of `Cache`.
pub record Cache (M : Type 0) : Type 0 where
  pub msg_id_index : Dict ℕ (M × ℕ)
  pub state_reference_index : Dict ℕ (M × ℕ)
  pub send_pdu_handle_idx : Dict ℕ ℕ
  pub expiration_queue : Queue
  pub expiration_timer : ℕ

module _ {M : Type 0} where
  -- `__init__`
  abbrev pub init : Cache M
  init = record {
    msg_id_index = [];
    state_reference_index = [];
    send_pdu_handle_idx = [];
    expiration_queue = [];
    expiration_timer = 0;
  }

  unfoldable pub push_by_state_ref : ℕ → M → Cache M → Outcome (Cache M)
  push_by_state_ref ref info s =
      let expire_at = s.expiration_timer + 600 in
      if contains ref s.state_reference_index
      then protocol_error
      else done (record s {
        state_reference_index = insert ref (info, expire_at) s.state_reference_index;
        expiration_queue = schedule state_reference expire_at ref s.expiration_queue;
      })

  abbrev pub popped_ref : ℕ → M → Cache M → Option Queue → Outcome (M × Cache M)
  popped_ref ref info s none = key_error
  popped_ref ref info s (some queue) = done (
    info,
    record s {
      state_reference_index = remove ref s.state_reference_index;
      expiration_queue = queue;
    },
  )

  abbrev pub pop_ref_entry : ℕ → Cache M → Option (M × ℕ) → Outcome (M × Cache M)
  pop_ref_entry ref s none = protocol_error
  pop_ref_entry ref s (some (info, expire_at)) =
      popped_ref ref info s (unschedule state_reference expire_at ref s.expiration_queue)

  unfoldable pub pop_by_state_ref : ℕ → Cache M → Outcome (M × Cache M)
  pop_by_state_ref ref s = pop_ref_entry ref s (lookup ref s.state_reference_index)

  -- The end of `expireCaches`, after its two loops.
  abbrev pub expired :
      Cache M → Option (Dict ℕ (M × ℕ)) → Option (Dict ℕ (M × ℕ)) → Outcome (Cache M)
  expired s none ids = key_error
  expired s (some refs) none = key_error
  expired s (some refs) (some ids) = done (record s {
    state_reference_index = refs;
    msg_id_index = ids;
    expiration_queue = remove s.expiration_timer s.expiration_queue;
    expiration_timer = s.expiration_timer + 1;
  })

  abbrev pub expire_slot : Cache M → Option Slot → Outcome (Cache M)
  expire_slot s none = done (record s { expiration_timer = s.expiration_timer + 1 })
  expire_slot s (some slot) =
      expired s (delete_kind state_reference slot s.state_reference_index)
        (delete_kind msg_id slot s.msg_id_index)

  unfoldable pub expire_caches : Cache M → Outcome (Cache M)
  expire_caches s = expire_slot s (lookup s.expiration_timer s.expiration_queue)

  module _ (send_pdu_handle : M → ℕ) where
    unfoldable pub push_by_msg_id : ℕ → M → Cache M → Outcome (Cache M)
    push_by_msg_id id info s =
        let expire_at = s.expiration_timer + 600 in
        if contains id s.msg_id_index
        then protocol_error
        else done (record s {
          msg_id_index = insert id (info, expire_at) s.msg_id_index;
          send_pdu_handle_idx = insert (send_pdu_handle info) id s.send_pdu_handle_idx;
          expiration_queue = schedule msg_id expire_at id s.expiration_queue;
        })

    abbrev pub popped_id : ℕ → M → Cache M → Option Queue → Outcome (M × Cache M)
    popped_id id info s none = key_error
    popped_id id info s (some queue) = done (
      info,
      record s {
        msg_id_index = remove id s.msg_id_index;
        send_pdu_handle_idx = remove (send_pdu_handle info) s.send_pdu_handle_idx;
        expiration_queue = queue;
      },
    )

    abbrev pub pop_id_entry : ℕ → Cache M → Option (M × ℕ) → Outcome (M × Cache M)
    pop_id_entry id s none = protocol_error
    pop_id_entry id s (some (info, expire_at)) =
        if contains (send_pdu_handle info) s.send_pdu_handle_idx
        then popped_id id info s (unschedule msg_id expire_at id s.expiration_queue)
        else key_error

    unfoldable pub pop_by_msg_id : ℕ → Cache M → Outcome (M × Cache M)
    pop_by_msg_id id s = pop_id_entry id s (lookup id s.msg_id_index)

    abbrev pub dropped : Outcome (M × Cache M) → Outcome (Cache M)
    dropped (done popped) = done popped.1
    dropped protocol_error = protocol_error
    dropped key_error = key_error

    abbrev pub pop_handle_entry : Cache M → Option ℕ → Outcome (Cache M)
    pop_handle_entry s none = done s
    pop_handle_entry s (some id) = dropped (pop_by_msg_id id s)

    unfoldable pub pop_by_send_pdu_handle : ℕ → Cache M → Outcome (Cache M)
    pop_by_send_pdu_handle handle s = pop_handle_entry s (lookup handle s.send_pdu_handle_idx)
