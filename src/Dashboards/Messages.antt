-- ===== src/Dashboards/Messages.antt =====
-- The texts that a dashboard gets, against the messages of the events.
use rust_roast.Prelude.{
  String, Bool, true, false, ◌&&◌, not, List, [], ◌∷◌, ◌++◌, ◌≡◌, refl, ◌∙◌, sym, ap, if◌then◌else◌,
  append_assoc, append-nil,
}
use rust_roast.Host.{Host}
use rust_roast.Dashboards.{
  Kind, Client, Event, Reaction, ignores, leaves, sends, react, after_reaction, round,
}

-- The end of a loop: an event that ends it, or a text that the socket refuses.
abbrev pub ends : Reaction → Bool → Bool
ends ignores accepts = false
ends leaves accepts = true
ends (sends text) accepts = not accepts

abbrev pub text_of : Reaction → List String
text_of (sends text) = text ∷ []
text_of _ = []

module _ (h : Host) where
  -- The rounds of one client, the oldest first.
  unfoldable pub served : Client → List (Event h × Bool) → Client
  unfolding round
  served c [] = c
  served c (event ∷ events) = served (round h c event) events

  -- The messages of the events before the first that ends the loop.
  abbrev pub messages : Kind → List (Event h × Bool) → List String
  messages kind [] = []
  messages kind ((event, accepts) ∷ events) =
      let rest = messages kind events in
      if ends (react h kind event) accepts then [] else text_of (react h kind event) ++ rest

  abbrev pub stays : Kind → List (Event h × Bool) → Bool
  stays kind [] = true
  stays kind ((event, accepts) ∷ events) =
      let rest = stays kind events in not (ends (react h kind event) accepts) && rest

  round-closed : (c : Client) (event : Event h × Bool) → c.is_open ≡ false → round h c event ≡ c
  unfolding round
  round-closed c (event, accepts) e =
      ap (λ b. if b then after_reaction c (react h c.kind event) accepts else c) e

  served-closed :
      (c : Client) (events : List (Event h × Bool)) → c.is_open ≡ false → served c events ≡ c
  unfolding served
  served-closed c [] e = refl
  served-closed c (event ∷ events) e =
      ap (λ d. served d events) (round-closed c event e) ∙ served-closed c events e

  client : Kind → List String → Bool → Client
  client kind texts is_open = record { kind = kind; texts = texts; is_open = is_open }

  -- A round by its reaction, before rounds that are known to give the messages of their events.
  served-reaction :
      (kind : Kind) (texts rest : List String) (more : Bool) (events : List (Event h × Bool))
      (r : Reaction) (accepts : Bool)
      → ((texts : List String)
          → served (client kind texts true) events ≡ client kind (texts ++ rest) more)
      → served (after_reaction (client kind texts true) r accepts) events
        ≡ client kind
            (texts ++ (if ends r accepts then [] else text_of r ++ rest))
            (not (ends r accepts) && more)
  unfolding client
  served-reaction kind texts rest more events ignores accepts ih = ih texts
  served-reaction kind texts rest more events leaves accepts ih =
      served-closed (client kind texts false) events refl
      ∙ ap (λ t. client kind t false) (sym (append-nil texts))
  served-reaction kind texts rest more events (sends text) true ih =
      ih (texts ++ text ∷ []) ∙ ap (λ t. client kind t more) (append_assoc texts (text ∷ []) rest)
  served-reaction kind texts rest more events (sends text) false ih =
      served-closed (client kind texts false) events refl
      ∙ ap (λ t. client kind t false) (sym (append-nil texts))

  -- The rounds of a client, from the time it joins. Its socket takes the messages of the events, in
  -- their order, up to the first event that ends the loop or has a text that the socket refuses, and
  -- the loop runs on if there is none.
  pub served-messages :
      (kind : Kind) (texts : List String) (events : List (Event h × Bool))
      → served (record { kind = kind; texts = texts; is_open = true }) events
        ≡ record { kind = kind; texts = texts ++ messages kind events; is_open = stays kind events }
  unfolding served round client
  served-messages kind texts [] = ap (λ t. client kind t true) (sym (append-nil texts))
  served-messages kind texts ((event, accepts) ∷ events) =
      served-reaction kind texts (messages kind events) (stays kind events) events
        (react h kind event) accepts (λ t. served-messages kind t events)
