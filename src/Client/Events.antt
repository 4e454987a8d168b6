-- ===== src/Client/Events.antt =====
-- What a client of the bridge adds to the record of its events.
use tiny_agent.Base.{
  ◌≡◌, ap, sym, ◌∙◌, String, List, [], ◌∷◌, ◌++◌, All, All-append, append_assoc', append-nil',
}
use tiny_agent.Client.{Event, announced, called, get, Run}

-- An event of a client that only watches a job: its calls read the job, and it announces no new one.
abbrev pub Watches : String → Event → Type 0
Watches path (announced id) = ⊥
Watches path (called r) = r ≡ get path
Watches path _ = Unit

module _ {W : Type 0} (path : String) where
  -- `t` comes behind `s`, by events that only watch the job.
  pub record Follows (s t : Run W) : Type 0 where
    pub rest : List Event
    pub events : t.events ≡ s.events ++ rest
    pub watches : All (Watches path) rest

  pub Follows-refl : (s : Run W) → Follows s s
  Follows-refl s = record { rest = []; events = sym (append-nil' s.events); watches = tt }

  pub Follows-trans : (s t u : Run W) → Follows s t → Follows t u → Follows s u
  Follows-trans s t u f g = record {
    rest = f.rest ++ g.rest;
    events = g.events ∙ (ap (λ es. es ++ g.rest) f.events ∙ append_assoc' s.events f.rest g.rest);
    watches = All-append _ f.rest g.rest f.watches g.watches;
  }

  pub Follows-one :
      (s t : Run W) (e : Event) → t.events ≡ s.events ++ (e ∷ []) → Watches path e → Follows s t
  Follows-one s t e h w = record { rest = e ∷ []; events = h; watches = (w, tt) }
