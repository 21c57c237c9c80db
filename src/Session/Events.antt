-- ===== src/Session/Events.antt =====
-- `SessionEventBus` of lib/src/session/events.cpp. An event type is its number, and what a handler
-- does is its own: `publish` returns the calls it makes, in order.
use hai_code.Base.{ℕ, ◌≡◌, List, [], ◌∷◌, ◌++◌, map, ◌==◌, if◌then◌else◌, arith, refl, ap}

-- A type without an entry has no handlers.
abbrev pub SessionEventBus {ℓ} : Type ℓ → Type ℓ
SessionEventBus Handler = List (ℕ × List Handler)

module _ {ℓ} {Handler : Type ℓ} where
  pub handlers_of : ℕ → SessionEventBus Handler → List Handler
  handlers_of event_type [] = []
  handlers_of event_type ((t, hs) ∷ bus) =
      if t == event_type then hs else handlers_of event_type bus

  pub subscribe : ℕ → Handler → SessionEventBus Handler → SessionEventBus Handler
  subscribe event_type handler [] = (event_type, handler ∷ []) ∷ []
  subscribe event_type handler ((t, hs) ∷ bus) =
      if t == event_type
      then (t, hs ++ handler ∷ []) ∷ bus
      else (t, hs) ∷ subscribe event_type handler bus

  pub unsubscribe_all : SessionEventBus Handler → SessionEventBus Handler
  unsubscribe_all bus = []

  pub publish {κ} : {Json : Type κ} → ℕ → Json → SessionEventBus Handler → List (Handler × Json)
  publish event_type data_json bus = map (λ h. (h, data_json)) (handlers_of event_type bus)

  handlers_of-subscribe :
      (e t : ℕ) (handler : Handler) (bus : SessionEventBus Handler)
      → handlers_of e (subscribe t handler bus)
        ≡ (if t == e then handlers_of e bus ++ handler ∷ [] else handlers_of e bus)
  unfolding handlers_of subscribe
  handlers_of-subscribe e t handler [] = ground arith
  handlers_of-subscribe e t handler ((u, hs) ∷ bus) =
      ground (arith, handlers_of-subscribe e t handler bus)

  map_append {κ} :
      {Call : Type κ} (f : Handler → Call) (xs : List Handler) (x : Handler)
      → map f (xs ++ x ∷ []) ≡ map f xs ++ f x ∷ []
  map_append f [] x = refl
  map_append f (y ∷ xs) x = ap (λ r. f y ∷ r) (map_append f xs x)

  -- After a subscription, an event of its type calls the handlers from before in their order and the
  -- new one last, and an event of another type calls the same handlers as before.
  pub publish-subscribe {κ} :
      {Json : Type κ} (e t : ℕ) (handler : Handler) (data_json : Json)
      (bus : SessionEventBus Handler)
      → publish e data_json (subscribe t handler bus) ≡ (
          if t == e
          then publish e data_json bus ++ (handler, data_json) ∷ []
          else publish e data_json bus)
  unfolding publish
  publish-subscribe {Json = Json} e t handler data_json bus =
      let call : Handler → Handler × Json = λ h. (h, data_json) in
      ground (
        arith,
        ap (map call) (handlers_of-subscribe e t handler bus),
        map_append call (handlers_of e bus) handler,
      )
