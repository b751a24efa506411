-- ===== src/ItemGroup/Single.antt =====
-- At most one controller is open, whatever calls are made, and each that was opened is open or was
-- closed once.
use snjs.Prelude.{
  ℕ, zero, suc, ◌+◌, ◌≤◌, ◌<◌, ◌≡◌, refl, Bool, true, false, List, [], ◌∷◌, ◌++◌, length, arith,
  ◌==◌, ltb, ◌⊎◌, inl, inr, ap, sym, subst, if◌then◌else◌,
}
use snjs.ItemGroup.{
  ItemGroup, notify_observers, close_item_controller, close_active_item_controller,
  begin_create_item_controller, close_from, close_all_item_controllers, deinit,
  add_active_controller_change_observer,
}

abbrev pub occurrences : ℕ → List ℕ → ℕ
occurrences c [] = 0
occurrences c (x ∷ xs) = if x == c then suc (occurrences c xs) else occurrences c xs

occurrences-append :
    (c : ℕ) (xs ys : List ℕ) → occurrences c (xs ++ ys) ≡ occurrences c xs + occurrences c ys
occurrences-append c [] ys = omega arith
occurrences-append c (x ∷ xs) ys = ground (arith, occurrences-append c xs ys)

-- At most one controller is open, and every one that was created is open or was closed, once.
pub record IsSingle (s : ItemGroup) : Type 0 where
  pub one_open : length s.item_controllers ≤ 1
  pub accounted :
      (c : ℕ)
      → occurrences c s.item_controllers + occurrences c s.closed
        ≡ (if ltb c s.next_controller then 1 else 0)

-- The calls of a client; `created` is the rest of a creation, after its controller is initialised.
pub data Call : Type 0 where
  create created close_active_one close_all stop : Call
  close observe : ℕ → Call

module _ (remove_from_array : List ℕ → ℕ → List ℕ) where
  unfoldable pub call : Call → ItemGroup → ItemGroup
  unfolding begin_create_item_controller notify_observers close_active_item_controller
      close_all_item_controllers deinit close_item_controller add_active_controller_change_observer
  call create s = begin_create_item_controller remove_from_array s
  call created s = notify_observers s
  call close_active_one s = close_active_item_controller remove_from_array s
  call close_all s = close_all_item_controllers remove_from_array s
  call stop s = deinit remove_from_array s
  call (close c) s = close_item_controller remove_from_array c true s
  call (observe o) s = add_active_controller_change_observer o s

  -- A controller is closed only while it is open.
  abbrev pub IsAllowed : Call → ItemGroup → Type 0
  IsAllowed (close c) s = s.item_controllers ≡ c ∷ []
  IsAllowed _ s = 0 ≤ 0

  -- The groups that calls lead to.
  pub data Reach (s : ItemGroup) : ItemGroup → Type 0 where
    start : Reach s s
    next : (c : Call) (s' : ItemGroup) → Reach s s' → IsAllowed c s' → Reach s (call c s')

  -- removeFromArray takes out the first element where it is the one to remove.
  module _ (removes_first : (c : ℕ) (cs : List ℕ) → remove_from_array (c ∷ cs) c ≡ cs) where
    -- The open controllers of a single group: none or one.
    abbrev Shape : List ℕ → Type 0
    Shape cs = (cs ≡ []) ⊎ ((c : ℕ) × (cs ≡ c ∷ []))

    shape_lem : (cs : List ℕ) → length cs ≤ 1 → Shape cs
    shape_lem [] h = inl refl
    shape_lem (c ∷ []) h = inr (c, refl)
    shape_lem (c ∷ d ∷ cs) h = absurd (omega (arith, h))

    create_none : (s : ItemGroup) → s.item_controllers ≡ [] → IsSingle s → IsSingle (call create s)
    unfolding call begin_create_item_controller
    create_none s none_open v = record {
      one_open = ground arith;
      accounted = λ c. ground (arith, v.accounted c);
    }

    create_one :
        (s : ItemGroup) (o : ℕ)
        → s.item_controllers ≡ o ∷ []
        → IsSingle s
        → IsSingle (call create s)
    unfolding call begin_create_item_controller close_item_controller
    create_one s o one_open v = record {
      one_open = ground (arith, removes_first o []);
      accounted = λ c.
          ground (arith, v.accounted c, removes_first o [], occurrences-append c s.closed (o ∷ []));
    }

    closed_one :
        (s : ItemGroup) (o : ℕ) (notify : Bool)
        → s.item_controllers ≡ o ∷ []
        → IsSingle s
        → IsSingle (close_item_controller remove_from_array o notify s)
    unfolding close_item_controller notify_observers
    closed_one s o notify one_open v = record {
      one_open = ground (arith, removes_first o []);
      accounted = λ c.
          ground (arith, v.accounted c, removes_first o [], occurrences-append c s.closed (o ∷ []));
    }

    closed_none :
        (s : ItemGroup) (o : ℕ)
        → s.item_controllers ≡ o ∷ []
        → (close_item_controller remove_from_array o false s).item_controllers ≡ []
    unfolding close_item_controller
    closed_none s o one_open = ground (arith, removes_first o [])

    -- Going over the array closes the one controller.
    swept_none :
        (rounds : ℕ) (s : ItemGroup)
        → s.item_controllers ≡ []
        → close_from remove_from_array rounds 0 s ≡ s
    unfolding close_from
    swept_none zero s none_open = refl
    swept_none (suc rounds) s none_open = ground arith

    swept_one :
        (s : ItemGroup) (o : ℕ)
        → s.item_controllers ≡ o ∷ []
        → close_from remove_from_array 1 0 s ≡ close_item_controller remove_from_array o false s
    unfolding close_from
    swept_one s o one_open = ground arith

    swept-IsSingle :
        (s : ItemGroup)
        → IsSingle s
        → IsSingle (close_from remove_from_array (length s.item_controllers) 0 s)
          × ((close_from remove_from_array (length s.item_controllers) 0 s).item_controllers ≡ [])
    swept-IsSingle s v = elim (shape_lem s.item_controllers v.one_open) [
      | inl none_open ↦ rw (swept_none (length s.item_controllers) s none_open) (v, none_open)
      | inr (o, one_open) ↦
          let e : length s.item_controllers ≡ 1 = ap length one_open in
          subst
            (λ n.
              IsSingle (close_from remove_from_array n 0 s)
              × ((close_from remove_from_array n 0 s).item_controllers ≡ []))
            (sym e)
            (rw (swept_one s o one_open)
              (closed_one s o false one_open v, closed_none s o one_open))
    ]

    active_none :
        (s : ItemGroup)
        → s.item_controllers ≡ []
        → close_active_item_controller remove_from_array s ≡ s
    unfolding close_active_item_controller
    active_none s none_open = ground arith

    active_one :
        (s : ItemGroup) (o : ℕ)
        → s.item_controllers ≡ o ∷ []
        → close_active_item_controller remove_from_array s
          ≡ close_item_controller remove_from_array o true s
    unfolding close_active_item_controller
    active_one s o one_open = ground arith

    -- What a client may do keeps at most one controller open.
    call-IsSingle : (c : Call) (s : ItemGroup) → IsAllowed c s → IsSingle s → IsSingle (call c s)
    unfolding call close_active_item_controller close_all_item_controllers deinit notify_observers
        add_active_controller_change_observer
    call-IsSingle create s allowed v = elim (shape_lem s.item_controllers v.one_open) [
      | inl none_open ↦ create_none s none_open v
      | inr (o, one_open) ↦ create_one s o one_open v
    ]
    call-IsSingle created s allowed v = record { one_open = v.one_open; accounted = v.accounted }
    call-IsSingle close_active_one s allowed v = elim (shape_lem s.item_controllers v.one_open) [
      | inl none_open ↦ rw (active_none s none_open) v
      | inr (o, one_open) ↦ rw (active_one s o one_open) (closed_one s o true one_open v)
    ]
    call-IsSingle close_all s allowed v =
        let (w, gone) = swept-IsSingle s v in
        record { one_open = w.one_open; accounted = w.accounted }
    call-IsSingle stop s allowed v =
        let s' : ItemGroup = record s { change_observers = [] } in
        let (w, gone) =
          swept-IsSingle s' (record { one_open = v.one_open; accounted = v.accounted }) in
        record { one_open = omega arith; accounted = λ c. ground (arith, w.accounted c, gone) }
    call-IsSingle (close o) s allowed v = closed_one s o true allowed v
    call-IsSingle (observe o) s allowed v = record {
      one_open = v.one_open;
      accounted = v.accounted;
    }

    calls-IsSingle : (s s' : ItemGroup) → IsSingle s → Reach s s' → IsSingle s'
    calls-IsSingle s s' v start = v
    calls-IsSingle s s' v (next c before r allowed) =
        call-IsSingle c before allowed (calls-IsSingle s before v r)

    -- From a group in which at most one controller is open and each that was created is open or was
    -- closed once, however creations and their completions, closings and the end of the group follow
    -- one another, if only an open controller is closed: this still holds, and closing all controllers
    -- leaves none open and each that was ever created closed exactly once.
    pub close_all-closes :
        (s s' : ItemGroup)
        → IsSingle s
        → Reach s s'
        → (let s'' = close_all_item_controllers remove_from_array s' in
            IsSingle s'
            × (s''.item_controllers ≡ [])
            × ((c : ℕ) → c < s''.next_controller → occurrences c s''.closed ≡ 1))
    unfolding close_all_item_controllers notify_observers
    close_all-closes s s' v r =
        let v' = calls-IsSingle s s' v r in
        let (w, gone) = swept-IsSingle s' v' in
        (v', gone, λ c created_before. ground (arith, w.accounted c, gone))
