-- ===== src/Events/Lists.antt =====
-- Who is called, after any sequence of registrations.
use seekira.Common.{
  ◌≡◌, refl, ◌∙◌, Bool, true, false, not, ◌||◌, ◌&&◌, Option, none, some, List, [], ◌∷◌, ◌++◌,
  arith, Eq, ◌==◌,
}
use seekira.Events.{
  EventHandlerList, swap_cache, disable, enable, subscribes, erase, register_event_handler,
  unregister_event_handler,
}

pub data Change (H : Type 0) : Type 0 where
  register : Option H → Change H
  unregister : Option H → Change H

module _ {H : Type 0} ⦃e : Eq H⦄ where
  unfoldable pub change : Change H → EventHandlerList H → EventHandlerList H
  unfolding register_event_handler unregister_event_handler
  change (register h) l = register_event_handler h l
  change (unregister h) l = unregister_event_handler h l

  unfoldable pub change_all : List (Change H) → EventHandlerList H → EventHandlerList H
  unfolding change
  change_all [] l = l
  change_all (c ∷ cs) l = change_all cs (change c l)

  -- Whether the handler is subscribed after the change, if it was before or not.
  unfoldable pub after : H → Change H → Bool → Bool
  after h (register none) b = b
  after h (register (some k)) b = h == k || b
  after h (unregister none) b = b
  after h (unregister (some k)) b = not (h == k) && b

  unfoldable pub after_all : H → List (Change H) → Bool → Bool
  unfolding after
  after_all h [] b = b
  after_all h (c ∷ cs) b = after_all h cs (after h c b)

  -- No handler stands twice.
  unfoldable pub is_unique : List H → Bool
  unfolding subscribes
  is_unique [] = true
  is_unique (x ∷ xs) = not (subscribes x xs) && is_unique xs

  subscribes-snoc :
      (h k : H) (xs : List H) → subscribes h (xs ++ k ∷ []) ≡ (h == k || subscribes h xs)
  unfolding subscribes
  subscribes-snoc h k [] = ground arith
  subscribes-snoc h k (x ∷ xs) = ground (arith, subscribes-snoc h k xs)

  is_unique-snoc :
      (k : H) (xs : List H)
      → is_unique xs ≡ true
      → subscribes k xs ≡ false
      → is_unique (xs ++ k ∷ []) ≡ true
  unfolding is_unique subscribes
  is_unique-snoc k [] u n = refl
  is_unique-snoc k (x ∷ xs) u n =
      ground
        (arith, subscribes-snoc x k xs, is_unique-snoc k xs, e.equals_iff x k, e.equals_iff k x)

  subscribes-erase :
      (h k : H) (xs : List H)
      → is_unique xs ≡ true
      → subscribes h (erase k xs) ≡ (not (h == k) && subscribes h xs)
  unfolding is_unique subscribes erase
  subscribes-erase h k [] u = ground arith
  subscribes-erase h k (x ∷ xs) u =
      ground (arith, subscribes-erase h k xs, e.equals_iff x k, e.equals_iff h k, e.equals_iff h x)

  is_unique-erase : (k : H) (xs : List H) → is_unique xs ≡ true → is_unique (erase k xs) ≡ true
  unfolding is_unique erase
  is_unique-erase k [] u = refl
  is_unique-erase k (x ∷ xs) u = ground (arith, is_unique-erase k xs, subscribes-erase x k xs)

  abbrev Changed : H → Change H → EventHandlerList H → EventHandlerList H → Type 0
  Changed h c l l' =
      (l'.is_enabled ≡ true)
      × (is_unique l'.subscribers ≡ true)
      × (subscribes h l'.subscribers ≡ after h c (subscribes h l.subscribers))

  change-Changed :
      (h : H) (c : Change H) (l : EventHandlerList H)
      → l.is_enabled ≡ true
      → is_unique l.subscribers ≡ true
      → Changed h c l (change c l)
  unfolding change after register_event_handler unregister_event_handler
  change-Changed h (register none) l on u = (on, u, refl)
  change-Changed h (unregister none) l on u = (on, u, refl)
  change-Changed h (unregister (some k)) l on u = (
    ground arith,
    ground (arith, is_unique-erase k l.subscribers),
    ground (arith, subscribes-erase h k l.subscribers),
  )
  change-Changed h (register (some k)) l on u = (
    ground arith,
    ground (arith, is_unique-snoc k l.subscribers),
    ground (arith, subscribes-snoc h k l.subscribers, e.equals_iff h k),
  )

  -- After any changes of an enabled list without a handler that is subscribed twice, a handler is subscribed exactly when the last change that
  -- names it registered it, or when it was subscribed and no change names it; no handler is
  -- subscribed twice, so none is called twice for one event.
  pub change_all-Changed :
      (h : H) (cs : List (Change H)) (l : EventHandlerList H)
      → l.is_enabled ≡ true
      → is_unique l.subscribers ≡ true
      → (is_unique (change_all cs l).subscribers ≡ true)
        × (subscribes h (change_all cs l).subscribers ≡ after_all h cs (subscribes h l.subscribers))
  unfolding change_all after_all
  change_all-Changed h [] l on u = (u, refl)
  change_all-Changed h (c ∷ cs) l on u =
      let (on', u', same) = change-Changed h c l on u in
      let (all, at) = change_all-Changed h cs (change c l) on' u' in (all, rw same at at)

  change-off : (c : Change H) (l : EventHandlerList H) → l.is_enabled ≡ false → change c l ≡ l
  unfolding change register_event_handler unregister_event_handler
  change-off (register none) l off = refl
  change-off (unregister none) l off = refl
  change-off (register (some k)) l off = simp off
  change-off (unregister (some k)) l off = simp off

  change_all-off :
      (cs : List (Change H)) (l : EventHandlerList H) → l.is_enabled ≡ false → change_all cs l ≡ l
  unfolding change_all
  change_all-off [] l off = refl
  change_all-off (c ∷ cs) l off = rw (change-off c l off) (change_all-off cs l off)

  disable-on :
      (l : EventHandlerList H)
      → l.is_enabled ≡ true
      → disable l ≡ record { subscribers = []; cache = l.subscribers; is_enabled = false }
  unfolding disable swap_cache
  disable-on l on = simp on

  enable-off :
      (s : List H)
      → enable (record { subscribers = []; cache = s; is_enabled = false })
        ≡ record { subscribers = s; cache = []; is_enabled = true }
  unfolding enable swap_cache
  enable-off s = refl

  -- An enabled list that is disabled calls nobody and takes no changes; when it is enabled again, its subscribers are
  -- those it had when it was disabled.
  pub disable-enable :
      (cs : List (Change H)) (l : EventHandlerList H)
      → l.is_enabled ≡ true
      → ((change_all cs (disable l)).subscribers ≡ [])
        × (enable (change_all cs (disable l)) ≡ record l { cache = [] })
  disable-enable cs l on =
      let off =
        change_all-off cs (record { subscribers = []; cache = l.subscribers; is_enabled = false })
          refl in
      rw (disable-on l on, off) (refl, enable-off l.subscribers ∙ simp on)
