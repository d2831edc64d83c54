-- ===== src/Alerts/Engine/Synced.antt =====
-- What the subscribers of the alert topics see, against the states of the engine.
use Prim.Native.String.{String, ◌++◌ as str_append}
use text.Mathlib.TextLemmas.{append_cancel_left}
use text.Mathlib.Text.{◌==◌ as str_eq}
use text.Mathlib.TextEquality.{eq_iff}
use lux_mon.Base.{
  ℕ, ◌≡◌, ◌⊎◌, refl, sym, subst, ◌∙◌, ap, List, [], ◌∷◌, Bool, true, false, not, ◌&&◌, none, some,
  if◌then◌else◌, Bool-cases, inl, inr,
}
use lux_mon.Base.Dict.{lookup_str, assign, contains, lookup-assign_self, lookup-assign_other}
use lux_mon.Automation.Condition.{Snapshot}
use lux_mon.Alerts.Rules.{Result, results, grid_lost_since, is_grid_present}
use lux_mon.Alerts.Notifiers.{Notifiers}
use lux_mon.Alerts.Engine.{
  AlertConfig, Alerts, is_on, same_bool, topic_base, alert_topic, discovery_topic,
  publish_ha_discovery, announce, publish_row, publish, apply_result, apply_results, evaluate,
}

-- What a subscriber to a topic sees: the last state published on it, off before.
abbrev pub seen : List (String × Result) → String → Bool
seen [] topic = false
seen ((t, r) ∷ rs) topic = if str_eq t topic then r.active else seen rs topic

-- Every message on a topic changes what its subscribers see.
abbrev pub Alternates : List (String × Result) → Type 0
Alternates [] = Unit {0}
Alternates ((t, r) ∷ rs) = (same_bool r.active (seen rs t) ≡ false) × Alternates rs

abbrev pub Distinct : List String → Type 0
Distinct [] = Unit {0}
Distinct (n ∷ ns) = (contains n ns ≡ false) × Distinct ns

-- The alerts that were announced.
abbrev pub names : List (String × String) → List String
names [] = []
names ((name, topic) ∷ ds) = name ∷ names ds

-- The evaluations of a process whose MQTT client takes every publication, from the `Alerts` that it
-- constructs; the topics of the alerts start with `base` throughout.
pub data Reached (base : String) : Alerts → Type 0 where
  start :
      (n : Notifiers)
      → Reached base (record {
        state = [];
        grid_lost_since = none;
        ha_announced = [];
        published = [];
        discovered = [];
        stored = [];
        notifiers = n;
      })
  evaluated :
      {a : Alerts} (cfg : AlertConfig) (decoded : Snapshot) (now : ℕ)
      → cfg.mqtt_client ≡ true
      → topic_base cfg ≡ base
      → ((topic : String) → cfg.takes topic ≡ true)
      → Reached base a
      → Reached base (evaluate cfg decoded now a).0

pub record Synced (base : String) (a : Alerts) : Type 0 where
  pub agree : (name : String) → is_on a.state name ≡ seen a.published (str_append base name)
  pub alternates : Alternates a.published
  pub announced : names a.discovered ≡ a.ha_announced
  pub distinct : Distinct a.ha_announced

-- Different alerts have different topics.
topic-eq : (base j k : String) → str_eq (str_append base j) (str_append base k) ≡ str_eq j k
topic-eq base j k = elim (Bool-cases (str_eq j k)) [
  | inl t ↦ rw t ((eq_iff _ _).1 (ap (str_append base) ((eq_iff j k).0 t)))
  | inr f ↦ rw f (apart (str_eq (str_append base j) (str_append base k)) refl f)
]
  where
    apart :
        (b : Bool)
        → str_eq (str_append base j) (str_append base k) ≡ b
        → str_eq j k ≡ false
        → b ≡ false
    apart false e f = refl
    apart true e f =
        let same : str_eq j k ≡ true =
          (eq_iff j k).1 (append_cancel_left base j k ((eq_iff _ _).0 e)) in
        sym same ∙ f

is_on-assign :
    (state : List (String × Bool)) (k name : String) (b : Bool)
    → is_on (assign k b state) name ≡ (if str_eq k name then b else is_on state name)
unfolding is_on
is_on-assign state k name b = elim (Bool-cases (str_eq k name)) [
  | inl t ↦
      rw
        (
          t,
          subst (λ i. lookup_str i (assign k b state) ≡ some b) ((eq_iff k name).0 t)
              (lookup-assign_self k b state),
        )
        refl
  | inr f ↦ rw (f, lookup-assign_other k name b state f) refl
]

same_bool-≡ : (a b : Bool) → same_bool a b ≡ true → a ≡ b
same_bool-≡ true true h = refl
same_bool-≡ true false h = cc
same_bool-≡ false true h = cc
same_bool-≡ false false h = refl

-- What a publication does to the parts that the invariant is about.
discovery-Synced :
    (base : String) (cfg : AlertConfig) (name : String) (a : Alerts)
    → ((topic : String) → cfg.takes topic ≡ true)
    → Synced base a
    → Synced base (publish_ha_discovery cfg name a)
unfolding publish_ha_discovery
discovery-Synced base cfg name a h s = elim (Bool-cases (contains name a.ha_announced)) [
  | inl t ↦ rw t s
  | inr f ↦
      rw (f, h (discovery_topic cfg name))
        (record {
          agree = s.agree;
          alternates = s.alternates;
          announced = ap (◌∷◌ name) s.announced;
          distinct = (f, s.distinct);
        })
]

publish-Synced :
    (base : String) (cfg : AlertConfig) (r : Result) (a : Alerts)
    → cfg.mqtt_client ≡ true
    → ((topic : String) → cfg.takes topic ≡ true)
    → Synced base (record a { published = (alert_topic cfg r.name, r) ∷ a.published })
    → Synced base (publish cfg r a)
unfolding publish topic_base publish_ha_discovery discovery_topic
publish-Synced base cfg r a h takes s =
    rw (h, takes (alert_topic cfg r.name)) (rowed (announced (Bool-cases cfg.ha_discovery)))
  where
    next : Alerts
    next = record a { published = (alert_topic cfg r.name, r) ∷ a.published }

    announced :
        (cfg.ha_discovery ≡ true) ⊎ (cfg.ha_discovery ≡ false)
        → Synced base (announce cfg r.name next)
    announced (inl t) = rw t (discovery-Synced base cfg r.name next takes s)
    announced (inr f) = rw f s

    rowed :
        Synced base (announce cfg r.name next)
        → Synced base (publish_row cfg r (announce cfg r.name next))
    rowed p = elim (Bool-cases (cfg.mariadb && cfg.inserts)) [
      | inl t ↦ rw t (record {
        agree = p.agree;
        alternates = p.alternates;
        announced = p.announced;
        distinct = p.distinct;
      })
      | inr f ↦ rw f p
    ]

apply_result-Synced :
    (base : String) (cfg : AlertConfig) (now : ℕ) (r : Result) (a : Alerts)
    → cfg.mqtt_client ≡ true
    → topic_base cfg ≡ base
    → ((topic : String) → cfg.takes topic ≡ true)
    → Synced base a
    → Synced base (apply_result cfg now r a)
unfolding apply_result
apply_result-Synced base cfg now r a h same takes s =
    elim (Bool-cases (same_bool r.active (is_on a.state r.name))) [
      | inl t ↦ rw t (record {
        agree = λ name.
            is_on-assign a.state r.name name r.active
            ∙ unchanged t name (Bool-cases (str_eq r.name name));
        alternates = s.alternates;
        announced = s.announced;
        distinct = s.distinct;
      })
      | inr f ↦
          let p =
            publish-Synced base cfg r (record a { state = assign r.name r.active a.state }) h takes
              (subst
                (λ b. Synced base (record a {
                  state = assign r.name r.active a.state;
                  published = (str_append b r.name, r) ∷ a.published;
                }))
                (sym same) (changed f)) in
          rw f (record {
            agree = p.agree;
            alternates = p.alternates;
            announced = p.announced;
            distinct = p.distinct;
          })
    ]
  where
    unchanged :
        same_bool r.active (is_on a.state r.name) ≡ true
        → (name : String) → (str_eq r.name name ≡ true) ⊎ (str_eq r.name name ≡ false)
        → (if str_eq r.name name then r.active else is_on a.state name)
          ≡ seen a.published (str_append base name)
    unchanged t name (inl e) = rw e (
        same_bool-≡ _ _ t
        ∙ s.agree r.name
        ∙ ap (λ n. seen a.published (str_append base n)) ((eq_iff r.name name).0 e))
    unchanged t name (inr e) = rw e (s.agree name)

    changed :
        same_bool r.active (is_on a.state r.name) ≡ false
        → Synced base (record a {
          state = assign r.name r.active a.state;
          published = (str_append base r.name, r) ∷ a.published;
        })
    changed f = record {
      agree = λ name.
          is_on-assign a.state r.name name r.active
          ∙ ap (λ b. if str_eq r.name name then r.active else b) (s.agree name)
          ∙ ap (λ b. if b then r.active else seen a.published (str_append base name))
              (sym (topic-eq base r.name name));
      alternates = (subst (λ b. same_bool r.active b ≡ false) (s.agree r.name) f, s.alternates);
      announced = s.announced;
      distinct = s.distinct;
    }

apply_results-Synced :
    (base : String) (cfg : AlertConfig) (now : ℕ) (rs : List Result) (a : Alerts)
    → cfg.mqtt_client ≡ true
    → topic_base cfg ≡ base
    → ((topic : String) → cfg.takes topic ≡ true)
    → Synced base a
    → Synced base (apply_results cfg now rs a)
unfolding apply_results
apply_results-Synced base cfg now [] a h same takes s = s
apply_results-Synced base cfg now (r ∷ rs) a h same takes s =
    apply_results-Synced base cfg now rs (apply_result cfg now r a) h same takes
      (apply_result-Synced base cfg now r a h same takes s)

evaluate-Synced :
    (base : String) (cfg : AlertConfig) (decoded : Snapshot) (now : ℕ) (a : Alerts)
    → cfg.mqtt_client ≡ true
    → topic_base cfg ≡ base
    → ((topic : String) → cfg.takes topic ≡ true)
    → Synced base a
    → Synced base (evaluate cfg decoded now a).0
unfolding evaluate
evaluate-Synced base cfg decoded now a h same takes s = enabled cfg.alerts_enabled
  where
    next : Alerts
    next = record a {
      grid_lost_since = grid_lost_since (is_grid_present decoded) now a.grid_lost_since;
    }

    next-Synced : Synced base next
    next-Synced = record {
      agree = s.agree;
      alternates = s.alternates;
      announced = s.announced;
      distinct = s.distinct;
    }

    rs : List Result
    rs = results cfg.limits decoded now a.grid_lost_since

    enabled :
        (b : Bool)
        → let r : Alerts × List Result =
            (if not b then (a, []) else (apply_results cfg now rs next, rs)) in
          Synced base r.0
    enabled false = s
    enabled true = apply_results-Synced base cfg now rs next h same takes next-Synced

Reached-Synced : {base : String} {a : Alerts} → Reached base a → Synced base a
unfolding is_on lookup_str
Reached-Synced (start n) = record {
  agree = λ name. refl;
  alternates = tt;
  announced = refl;
  distinct = tt;
}
Reached-Synced (evaluated cfg decoded now h same takes r) =
    evaluate-Synced _ cfg decoded now _ h same takes (Reached-Synced r)

-- However often the alerts are evaluated, with whatever values, limits and times: if the MQTT client
-- takes every publication, and the settings that its topics are made of stay the same, then for every
-- alert the last state published on its topic is the state that the engine holds.
pub Reached-agree :
    (base : String) (a : Alerts)
    → Reached base a
    → (name : String) → is_on a.state name ≡ seen a.published (str_append base name)
Reached-agree base a r = (Reached-Synced r).agree

-- Under the same conditions, every state that is published differs from the one published before it on
-- the same topic, and the discovery message of an alert is published once at most.
pub Reached-Alternates :
    (base : String) (a : Alerts)
    → Reached base a
    → Alternates a.published × Distinct (names a.discovered)
Reached-Alternates base a r =
    let s = Reached-Synced r in (s.alternates, subst Distinct (sym s.announced) s.distinct)
