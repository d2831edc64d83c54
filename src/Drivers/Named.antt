-- ===== src/Drivers/Named.antt =====
-- What the registry finds, and what the map of the 18KPV holds.
use Prim.Native.String.{String}
use text.Mathlib.Text.{◌==◌ as str_eq}
use text.Mathlib.TextEquality.{eq_iff}
use lux_mon.Base.{ℕ, ◌≡◌, refl, sym, ◌∙◌, List, [], ◌∷◌, All, Outcome, ok, Bool-cases, inl, inr, ap}
use lux_mon.Base.Dict.{lookup, lookup_str, or_else, lookup-update_items, DistinctKeys}
use lux_mon.Registers.Batteries.{all_input_registers}
use lux_mon.Drivers.{ModelDriver, drivers, or_unsupported, get_driver, luxpower_sna, eg4_18kpv}
use lux_mon.Drivers.Kpv18.{extra_18kpv, registers_18kpv}

abbrev NamedByKey : List (String × ModelDriver) → Type 0
NamedByKey ds = All (λ (key, d). d.name ≡ key) ds

lookup_str-named :
    (model : String) (ds : List (String × ModelDriver)) (d : ModelDriver)
    → NamedByKey ds
    → or_unsupported (lookup_str model ds) ≡ ok d
    → d.name ≡ model
unfolding lookup_str
lookup_str-named model [] d h e = cc
lookup_str-named model ((key, x) ∷ ds) d (h, hs) e = elim (Bool-cases (str_eq key model)) [
  | inl t ↦
      let same : x ≡ d = found x d (rw t at e) in
      ap (λ y. y.name) (sym same) ∙ h ∙ (eq_iff key model).0 t
  | inr f ↦ lookup_str-named model ds d hs (rw f at e)
]
  where
    found : (x d : ModelDriver) → Outcome.ok x ≡ ok d → x ≡ d
    found x d q = cc

drivers-NamedByKey : NamedByKey drivers
unfolding drivers luxpower_sna eg4_18kpv
drivers-NamedByKey = (
  refl,
  (refl, (refl, (refl, (refl, (refl, (refl, (refl, (refl, (refl, (refl, (refl, tt))))))))))),
)

-- The driver that is found for a model has the name of the model: none of the registered models
-- falls back to the map of another one unnoticed.
pub get_driver-name : (model : String) (d : ModelDriver) → get_driver model ≡ ok d → d.name ≡ model
unfolding get_driver
get_driver-name model d e = lookup_str-named model drivers d drivers-NamedByKey e

extra-DistinctKeys : DistinctKeys extra_18kpv
unfolding lookup
extra-DistinctKeys = (
  refl,
  (
    refl,
    (
      refl,
      (
        refl,
        (
          refl,
          (
            refl,
            (
              refl,
              (
                refl,
                (
                  refl,
                  (
                    refl,
                    (
                      refl,
                      (
                        refl,
                        (
                          refl,
                          (
                            refl,
                            (
                              refl,
                              (
                                refl,
                                (
                                  refl,
                                  (
                                    refl,
                                    (
                                      refl,
                                      (
                                        refl,
                                        (
                                          refl,
                                          (
                                            refl,
                                            (
                                              refl,
                                              (
                                                refl,
                                                (
                                                  refl,
                                                  (
                                                    refl,
                                                    (
                                                      refl,
                                                      (
                                                        refl,
                                                        (
                                                          refl,
                                                          (
                                                            refl,
                                                            (
                                                            refl,
                                                            (
                                                            refl,
                                                            (
                                                            refl,
                                                            (
                                                            refl,
                                                            (
                                                            refl,
                                                            (
                                                            refl,
                                                            (
                                                            refl,
                                                            (
                                                            refl,
                                                            (
                                                            refl,
                                                            (refl, (refl, (refl, (refl, tt)))),
                                                            ),
                                                            ),
                                                            ),
                                                            ),
                                                            ),
                                                            ),
                                                            ),
                                                            ),
                                                            ),
                                                          ),
                                                        ),
                                                      ),
                                                    ),
                                                  ),
                                                ),
                                              ),
                                            ),
                                          ),
                                        ),
                                      ),
                                    ),
                                  ),
                                ),
                              ),
                            ),
                          ),
                        ),
                      ),
                    ),
                  ),
                ),
              ),
            ),
          ),
        ),
      ),
    ),
  ),
)

-- The 18KPV reads a register by its own definition where it has one, and else by the definition that
-- all the inverters share.
pub lookup-registers_18kpv :
    (address : ℕ)
    → lookup address registers_18kpv
      ≡ or_else (lookup address extra_18kpv) (lookup address all_input_registers)
unfolding registers_18kpv
lookup-registers_18kpv address =
    lookup-update_items address extra_18kpv all_input_registers extra-DistinctKeys
