-- ===== src/Stream/Open.antt =====
-- The connections of the stream carrier: which peer a listed connection belongs to, and which peers have
-- one that is open.
use pysnmp.Stream.State.{Carrier, Connection, shut}
use pysnmp.Base.Eq.{Eq, nat_eq}
use pysnmp.Base.{
  ==_iff, Bool, Bool-cases, Option, arith, false, if◌then◌else◌, inl, inr, none, refl, some, true,
  ℕ, ◌==◌, ◌≡◌, ◌⊎◌,
}
use pysnmp.Base.Dict.{Dict, lookup, lookup-insert}
use pysnmp.Stream.{open_connection}

module _ {K : Type 0} where
  abbrev pub key_of : Option (Connection K) → Option K
  key_of none = none
  key_of (some c) = some c.address.key

  abbrev pub is_open_at : Option (Connection K) → Bool
  is_open_at none = false
  is_open_at (some c) = c.is_open

  abbrev pub is_open_listed : Option ℕ → Dict ℕ (Connection K) → Bool
  is_open_listed none d = false
  is_open_listed (some id) d = is_open_at (lookup id d)

  unfoldable closed_at : Option (Connection K) → Option (Connection K)
  closed_at none = none
  closed_at (some c) = some (record c { is_open = false })

  lookup-shut :
      (id j : ℕ) (found : Option (Connection K)) (d : Dict ℕ (Connection K))
      → lookup id d ≡ found
      → lookup j (shut id found d) ≡ (if id == j then closed_at found else lookup j d)
  unfolding closed_at
  lookup-shut id j none d e = ground (arith, ==_iff id j)
  lookup-shut id j (some c) d e = rw lookup-insert refl

  key_of-closed : (found : Option (Connection K)) → key_of (closed_at found) ≡ key_of found
  unfolding closed_at
  key_of-closed none = refl
  key_of-closed (some c) = refl

  shut_at-closed : (found : Option (Connection K)) → is_open_at (closed_at found) ≡ false
  unfolding closed_at
  shut_at-closed none = refl
  shut_at-closed (some c) = refl

  pub key_of-shut :
      (id j : ℕ) (d : Dict ℕ (Connection K))
      → key_of (lookup j (shut id (lookup id d) d)) ≡ key_of (lookup j d)
  key_of-shut id j d = elim (Bool-cases (id == j)) [
    | inl same ↦
        rw (lookup-shut id j _ d refl, same) (rw (← ((==_iff id j).0 same)) (key_of-closed _))
    | inr differ ↦ rw (lookup-shut id j _ d refl, differ) refl
  ]

  pub is_open_at-shut :
      (id j : ℕ) (d : Dict ℕ (Connection K))
      → is_open_at (lookup j (shut id (lookup id d) d))
        ≡ (if id == j then false else is_open_at (lookup j d))
  is_open_at-shut id j d = elim (Bool-cases (id == j)) [
    | inl same ↦ rw (lookup-shut id j _ d refl, same) (shut_at-closed _)
    | inr differ ↦ rw (lookup-shut id j _ d refl, differ) refl
  ]

module _ {K M : Type 0} ⦃ek : Eq K⦄ where
  -- The connection to a peer is open.
  unfoldable pub is_open_to : K → Carrier K M → Bool
  is_open_to k s = is_open_listed (lookup k s.connections) s.protocols

  -- The connection over which a message to a peer goes out.
  pub record Channel (k : K) (s : Carrier K M) : Type 0 where
    pub id : ℕ
    pub connection : Connection K
    pub chosen : open_connection k s ≡ some (id, connection)
    pub is_listed : lookup k s.connections ≡ some id
    pub found : lookup id s.protocols ≡ some connection

  abbrev Connected : K → Carrier K M → Type 0
  Connected k s =
      ((is_open_to k s ≡ false) × (open_connection k s ≡ none))
      ⊎ ((is_open_to k s ≡ true) × Channel k s)

  -- A connection is open to a peer, or nothing is to be had from the table.
  pub open_connection-cases : (k : K) (s : Carrier K M) → Connected k s
  unfolding is_open_to
  open_connection-cases k s = of_listed (lookup k s.connections) refl
    where
      of_found :
          (id : ℕ) (found : Option (Connection K))
          → lookup k s.connections ≡ some id
          → lookup id s.protocols ≡ found
          → Connected k s
      of_found id none listed e = inl (rw listed (rw e refl), rw listed (rw e refl))
      of_found id (some c) listed e = elim (Bool-cases c.is_open) [
        | inl opened ↦ inr (
          rw listed (rw e opened),
          record {
            id = id;
            connection = c;
            chosen = rw listed (rw e (rw opened refl));
            is_listed = listed;
            found = e;
          },
        )
        | inr down ↦ inl (rw listed (rw e down), rw listed (rw e (rw down refl)))
      ]

      of_listed : (entry : Option ℕ) → lookup k s.connections ≡ entry → Connected k s
      of_listed none e = inl (rw e refl, rw e refl)
      of_listed (some id) e = of_found id (lookup id s.protocols) e refl
