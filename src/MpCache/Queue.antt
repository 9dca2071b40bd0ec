-- ===== src/MpCache/Queue.antt =====
-- What is queued after the operations on the expiration queue, and what the loops of an expiry delete.
use mathlib.Core.Option
use mathlib.Core.Option.{some-injective}
use pysnmp.Base.{
  ==_iff, Bool, Bool-cases, Option, [], ap, arith, false, if◌then◌else◌, inl, inr, none, refl, some,
  sym, true, ℕ, ◌&&◌, ◌==◌, ◌||◌, ◌∙◌, ◌∷◌, ◌≡◌,
}
use pysnmp.Base.Eq.{nat_eq}
use pysnmp.Base.Dict.{
  Dict, HasUniqueKeys, contains, contains-insert, contains-remove, insert, insert-HasUniqueKeys,
  lookup, lookup-empty, lookup-insert, lookup-remove, remove, remove-HasUniqueKeys,
}
use pysnmp.MpCache.{
  Kind, Queue, Slot, delete_key, delete_keys, keys_at, kind_beq, kind_beq_iff, kind_eq, schedule,
  slot_at, unschedule, unschedule_slot,
}

-- `key in queue[expire_at][kind]`, false where a level is missing.
abbrev pub queued : Kind → ℕ → ℕ → Queue → Bool
queued kind expire_at key queue = contains key (keys_at kind (slot_at expire_at queue))

slot_at-insert :
    (e e' : ℕ) (slot : Slot) (q : Queue)
    → slot_at e' (insert e slot q) ≡ (if e == e' then slot else slot_at e' q)
slot_at-insert e e' slot q =
    rw (lookup-insert e e' slot q)
      (elim (Bool-cases (e == e')) [ inl h ↦ rw h refl | inr h ↦ rw h refl ])

keys_at-insert :
    (k k' : Kind) (keys : Dict ℕ ℕ) (slot : Slot)
    → keys_at k' (insert k keys slot) ≡ (if kind_beq k k' then keys else keys_at k' slot)
keys_at-insert k k' keys slot =
    rw (lookup-insert k k' keys slot)
      (elim (Bool-cases (kind_beq k k')) [ inl h ↦ rw h refl | inr h ↦ rw h refl ])

-- One set of keys of the queue replaced by another.
keys-replaced :
    (k k' : Kind) (e e' : ℕ) (keys : Dict ℕ ℕ) (q : Queue)
    → keys_at k' (slot_at e' (insert e (insert k keys (slot_at e q)) q))
      ≡ (if kind_beq k k' && e == e' then keys else keys_at k' (slot_at e' q))
keys-replaced k k' e e' keys q =
    rw (slot_at-insert e e' (insert k keys (slot_at e q)) q) (elim (Bool-cases (e == e')) [
      | inl h ↦
          rw (h, keys_at-insert k k' keys (slot_at e q), (==_iff e e').0 h)
            (elim (Bool-cases (kind_beq k k')) [ inl g ↦ rw g refl | inr g ↦ rw g refl ])
      | inr h ↦ rw h (elim (Bool-cases (kind_beq k k')) [ inl g ↦ rw g refl | inr g ↦ rw g refl ])
    ])

pub queued-schedule :
    (k k' : Kind) (e e' key key' : ℕ) (q : Queue)
    → queued k' e' key' (schedule k e key q)
      ≡ ((kind_beq k k' && (e == e' && key == key')) || queued k' e' key' q)
unfolding schedule
queued-schedule k k' e e' key key' q =
    rw (keys-replaced k k' e e' (insert key 1 (keys_at k (slot_at e q))) q)
      (elim (Bool-cases (kind_beq k k')) [
        | inr g ↦ rw g refl
        | inl g ↦ elim (Bool-cases (e == e')) [
          | inr h ↦ rw (g, h) refl
          | inl h ↦
              rw (g, h)
                (rw
                  (
                    contains-insert key key' 1 (keys_at k (slot_at e q)),
                    (==_iff e e').0 h,
                    (kind_beq_iff k k').0 g,
                  )
                  refl)
        ]
      ])

pub schedule-HasUniqueKeys :
    (k k' : Kind) (e e' key : ℕ) (q : Queue)
    → ((j : Kind) (i : ℕ) → HasUniqueKeys (keys_at j (slot_at i q)))
    → HasUniqueKeys (keys_at k' (slot_at e' (schedule k e key q)))
unfolding schedule
schedule-HasUniqueKeys k k' e e' key q u =
    rw (keys-replaced k k' e e' (insert key 1 (keys_at k (slot_at e q))) q)
      (elim (Bool-cases (kind_beq k k' && e == e')) [
        | inl h ↦ rw h (insert-HasUniqueKeys key 1 (keys_at k (slot_at e q)) (u k e))
        | inr h ↦ rw h (u k' e')
      ])

delete_key_present :
    (key : ℕ) (o : Option (Dict ℕ ℕ))
    → contains key (Option.get_or o []) ≡ true
    → delete_key key o ≡ some (remove key (Option.get_or o []))
unfolding lookup
delete_key_present key none h = cc
delete_key_present key (some keys) h = rw h refl

unschedule_slot_queued :
    (k : Kind) (e key : ℕ) (q : Queue) (o : Option Slot)
    → contains key (keys_at k (Option.get_or o [])) ≡ true
    → unschedule_slot k e key q o
      ≡ some
          (insert e (insert k (remove key (keys_at k (Option.get_or o []))) (Option.get_or o [])) q)
unfolding lookup
unschedule_slot_queued k e key q none h = cc
unschedule_slot_queued k e key q (some slot) h = rw (delete_key_present key (lookup k slot) h) refl

-- A queued key can be taken off the queue, and it alone goes.
pub unschedule-queued :
    (k : Kind) (e key : ℕ) (q : Queue)
    → queued k e key q ≡ true
    → unschedule k e key q
      ≡ some (insert e (insert k (remove key (keys_at k (slot_at e q))) (slot_at e q)) q)
unfolding unschedule
unschedule-queued k e key q h = unschedule_slot_queued k e key q (lookup e q) h

pub queued-unschedule :
    (k k' : Kind) (e e' key key' : ℕ) (q q' : Queue)
    → queued k e key q ≡ true
    → unschedule k e key q ≡ some q'
    → queued k' e' key' q'
      ≡ (if kind_beq k k' && (e == e' && key == key') then false else queued k' e' key' q)
queued-unschedule k k' e e' key key' q q' h t =
    let keys = remove key (keys_at k (slot_at e q)) in
    rw
      (← some-injective (insert e (insert k keys (slot_at e q)) q) q'
        (sym (unschedule-queued k e key q h) ∙ t))
      (rw (keys-replaced k k' e e' keys q) (elim (Bool-cases (kind_beq k k')) [
        | inr g ↦ rw g refl
        | inl g ↦ elim (Bool-cases (e == e')) [
          | inr i ↦ rw (g, i) refl
          | inl i ↦
              rw (g, i)
                (rw
                  (
                    contains-remove key key' (keys_at k (slot_at e q)),
                    (==_iff e e').0 i,
                    (kind_beq_iff k k').0 g,
                  )
                  refl)
        ]
      ]))

pub unschedule-HasUniqueKeys :
    (k k' : Kind) (e e' key : ℕ) (q q' : Queue)
    → queued k e key q ≡ true
    → unschedule k e key q ≡ some q'
    → ((j : Kind) (i : ℕ) → HasUniqueKeys (keys_at j (slot_at i q)))
    → HasUniqueKeys (keys_at k' (slot_at e' q'))
unschedule-HasUniqueKeys k k' e e' key q q' h t u =
    let keys = remove key (keys_at k (slot_at e q)) in
    rw
      (← some-injective (insert e (insert k keys (slot_at e q)) q) q'
        (sym (unschedule-queued k e key q h) ∙ t))
      (rw (keys-replaced k k' e e' keys q) (elim (Bool-cases (kind_beq k k' && e == e')) [
        | inl g ↦ rw g (remove-HasUniqueKeys key (keys_at k (slot_at e q)) (u k e))
        | inr g ↦ rw g (u k' e')
      ]))

pub keys_at-remove :
    (k : Kind) (e e' : ℕ) (q : Queue)
    → keys_at k (slot_at e' (remove e q)) ≡ (if e == e' then [] else keys_at k (slot_at e' q))
keys_at-remove k e e' q = rw (lookup-remove e e' q) (elim (Bool-cases (e == e')) [
  | inl h ↦ rw h (ap (λ o. Option.get_or o []) (lookup-empty {V = Dict ℕ ℕ} k))
  | inr h ↦ rw h refl
])

-- Deleting keys that are all there, each once, succeeds, and they alone go.
pub delete_keys_lem :
    {V : Type 0} (keys : Dict ℕ ℕ) (index : Dict ℕ V)
    → HasUniqueKeys keys
    → ((j : ℕ) → contains j keys ≡ true → contains j index ≡ true)
    → (index' : Dict ℕ V) × (delete_keys keys index ≡ some index')
      × ((j : ℕ) → lookup j index' ≡ (if contains j keys then none else lookup j index))
unfolding delete_keys lookup
delete_keys_lem [] index u h = (index, refl, λ j. refl)
delete_keys_lem ((k, one) ∷ keys) index u h =
    let here : contains k index ≡ true = h k (rw ((==_iff k k).1 refl) refl) in
    let (index', e, l) =
      delete_keys_lem keys (remove k index) u.1
        (λ j m. ground (arith, contains-remove k j index, u.0, h j)) in
    (index', rw here e, λ j. ground (arith, l j, lookup-remove k j index))
