-- ===== src/Ble/EventQueue/Session.antt =====
-- What a transport's events tell of its connection.
use bms_bridge.Base.{
  ◌≡◌, refl, List, [], ◌∷◌, ◌++◌, Option, none, some, Bool, true, false, if◌then◌else◌, ◌>>=◌,
}
use bms_bridge.Ble.EventQueue.{BmsEvent, link_up, link_down, notify_frame}

-- The connection as the events on the queue tell it: none when they do not alternate.
abbrev pub told : BmsEvent → Bool → Option Bool
told link_up up = if up then none else some true
told link_down up = if up then some false else none
told (notify_frame payload) up = some up

unfoldable pub session : Option Bool → List BmsEvent → Option Bool
session up [] = up
session up (ev ∷ evs) = session (up >>= told ev) evs

pub session-snoc :
    (up : Option Bool) (evs : List BmsEvent) (ev : BmsEvent)
    → session up (evs ++ ev ∷ []) ≡ (session up evs >>= told ev)
unfolding session
session-snoc up [] ev = refl
session-snoc up (e ∷ evs) ev = session-snoc (up >>= told e) evs ev
