-- ===== src/DepsScanner/Stopping.antt =====
-- When the service of the dependency scanner is stopped, and when it starts.
use mathlib.Core.List.{append_assoc, append-nil}
use reclient.Prelude.{
  ◌≡◌, ◌↔◌, refl, ◌∙◌, Bool, true, false, ◌&&◌, ◌||◌, String, Option, none, some, List, [], ◌∷◌,
  ◌++◌, str_eq, if◌then◌else◌, is_some, inl, inr, Option-cases, arith, subst,
}
use reclient.Prelude.Maps.{Map}
use reclient.DepsScanner.{find_key_val, add_environment, add_env}
use reclient.DepsScanner.Service.{
  ServiceEffect, did_effect, start_error, shutdown_sent, terminated, Client, World, wait_end,
  stop_service, service_args, launch, start_service,
}

-- The process ends within one of the two waits.
abbrev pub ends_in_time : World → Bool
ends_in_time w = w.ended 0 || w.ended 1

-- Every entry of the environment can be taken apart.
abbrev pub is_readable : (String → Option String) → List String → Bool
is_readable look [] = true
is_readable look (e ∷ es) = is_some (find_key_val e look) && is_readable look es

abbrev pub Starts : World → Type 0
Starts w = (is_readable w.lookup_env w.environ ≡ true) × (w.start_err ≡ none)

wait_end-effects :
    (w : World) (c : Client)
    → (wait_end w 2 0 c).1.effects ≡ c.effects ++ (if w.ended 0 then [] else terminated ∷ [])
unfolding wait_end
wait_end-effects w c = ground (arith, append-nil c.effects)

wait_end_iff : (w : World) (c : Client) → ((wait_end w 2 0 c).0 ≡ none) ↔ (ends_in_time w ≡ true)
unfolding wait_end
wait_end_iff w c = ground arith

asked : Bool → Client → Client
asked b c = if b then did_effect c shutdown_sent else did_effect c terminated

stop_service-managed :
    (w : World) (c : Client)
    → str_eq c.executable "" ≡ false
    → stop_service w c ≡ wait_end w 2 0 (asked c.has_client c)
unfolding stop_service asked
stop_service-managed w c h = rw h refl

asked-effects :
    (b : Bool) (c : Client) (rest : List ServiceEffect)
    → (asked b c).effects ++ rest ≡ c.effects ++ (if b then shutdown_sent else terminated) ∷ rest
unfolding asked
asked-effects true c rest = append_assoc c.effects (shutdown_sent ∷ []) rest
asked-effects false c rest = append_assoc c.effects (terminated ∷ []) rest

-- Stopping a service that reproxy has started: it is asked to end, or is ended at once if there was
-- no connection to it; it is ended, too, when it has not ended by itself within the first wait; and
-- an error comes exactly if it has not ended within two waits.
pub stop_service_lem :
    (w : World) (c : Client)
    → str_eq c.executable "" ≡ false
    → (((stop_service w c).0 ≡ none) ↔ ((w.ended 0 || w.ended 1) ≡ true))
      × ((stop_service w c).1.effects
          ≡ c.effects
            ++ (if c.has_client then shutdown_sent else terminated)
              ∷ (if w.ended 0 then [] else terminated ∷ []))
stop_service_lem w c h = rw (stop_service-managed w c h) (
  wait_end_iff w (asked c.has_client c),
  wait_end-effects w (asked c.has_client c)
      ∙ asked-effects c.has_client c (if w.ended 0 then [] else terminated ∷ []),
)

pub stopped_iff :
    (w : World) (c : Client)
    → ((stop_service w c).0 ≡ none) ↔ ((str_eq c.executable "" || ends_in_time w) ≡ true)
unfolding stop_service wait_end
stopped_iff w c = ground arith

is_some-add_environment :
    (look : String → Option String) (es : List String) (acc : List String × Map String String)
    → is_some (add_environment look es acc) ≡ is_readable look es
unfolding add_environment
is_some-add_environment look [] acc = refl
is_some-add_environment look (e ∷ es) acc = elim (Option-cases (find_key_val e look)) [
  | inl nothing ↦ rw nothing refl
  | inr (kv, found) ↦ rw found (is_some-add_environment look es (add_env acc kv))
]

start_error_iff : (o : Option String) → (start_error o ≡ none) ↔ (o ≡ none)
start_error_iff none = (λ h. refl, λ h. refl)
start_error_iff (some e) = (λ h. cc, λ h. cc)

launched_iff :
    (w : World) (c : Client) (o : Option (List String × Map String String))
    → ((launch w c o).0 ≡ none) ↔ ((is_some o ≡ true) × (w.start_err ≡ none))
unfolding launch
launched_iff w c none = (λ h. cc, λ h. cc)
launched_iff w c (some p) =
    (λ h. (refl, (start_error_iff w.start_err).0 h), λ h. (start_error_iff w.start_err).1 h.1)

pub started_iff :
    (w : World) (executable : String) (c : Client)
    → ((start_service w executable c).0 ≡ none) ↔ Starts w
unfolding start_service
started_iff w executable c =
    let c' : Client = record c { executable = executable } in
    let acc : List String × Map String String = (service_args c', []) in
    subst
      (λ b.
        ((launch w c' (add_environment w.lookup_env w.environ acc)).0 ≡ none)
        ↔ ((b ≡ true) × (w.start_err ≡ none)))
      (is_some-add_environment w.lookup_env w.environ acc)
      (launched_iff w c' (add_environment w.lookup_env w.environ acc))
