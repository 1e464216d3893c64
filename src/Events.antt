-- ===== src/Events.antt =====
-- src/core/base/interfaces/event_handler_list.hpp. A handler is known by its address; `none` is a null
-- pointer. Each operation holds the list's lock, so it is one step. The delivery policy is the one that
-- calls at once.
pub mod Lists
use seekira.Common.{
  Bool, true, false, not, Option, none, some, List, [], ◌∷◌, ◌++◌, Eq, ◌==◌, if◌then◌else◌,
}

pub record EventHandlerList (H : Type 0) : Type 0 where
  pub subscribers : List H
  pub cache : List H
  pub is_enabled : Bool

abbrev pub no_handlers : {H : Type 0} → EventHandlerList H
no_handlers = record { subscribers = []; cache = []; is_enabled = true }

module _ {H : Type 0} where
  unfoldable pub swap_cache : EventHandlerList H → EventHandlerList H
  swap_cache l = record l { subscribers = l.cache; cache = l.subscribers }

  unfoldable pub disable : EventHandlerList H → EventHandlerList H
  unfolding swap_cache
  disable l =
      if not l.is_enabled
      then l
      else record (swap_cache (record l { cache = [] })) { is_enabled = false }

  unfoldable pub enable : EventHandlerList H → EventHandlerList H
  unfolding swap_cache
  enable l = if l.is_enabled then l else record (swap_cache l) { is_enabled = true }

  -- Each subscriber of the copy is called in turn. A handler that throws ends the loop.
  unfoldable pub perform : {S X : Type 0} → (H → S → S × Option X) → List H → S → S × Option X
  perform f [] s = (s, none)
  perform f (h ∷ hs) s =
      let (s', x) = f h s in elim x [ none ↦ perform f hs s' | some e ↦ (s', some e) ]

  unfoldable pub perform_for_each_event_handler :
      {S X : Type 0} → (H → S → S × Option X) → EventHandlerList H → S → S × Option X
  unfolding perform
  perform_for_each_event_handler f l s = perform f l.subscribers s

module _ {H : Type 0} ⦃e : Eq H⦄ where
  unfoldable pub subscribes : H → List H → Bool
  subscribes h [] = false
  subscribes h (x ∷ xs) = if h == x then true else subscribes h xs

  unfoldable pub erase : H → List H → List H
  erase h [] = []
  erase h (x ∷ xs) = if x == h then xs else x ∷ erase h xs

  unfoldable pub register_event_handler : Option H → EventHandlerList H → EventHandlerList H
  unfolding subscribes
  register_event_handler none l = l
  register_event_handler (some h) l =
      if not l.is_enabled
      then l
      else if subscribes h l.subscribers
      then l
      else record l { subscribers = l.subscribers ++ h ∷ [] }

  unfoldable pub unregister_event_handler : Option H → EventHandlerList H → EventHandlerList H
  unfolding erase
  unregister_event_handler none l = l
  unregister_event_handler (some h) l =
      if not l.is_enabled then l else record l { subscribers = erase h l.subscribers }
