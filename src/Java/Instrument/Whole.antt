-- ===== src/Java/Instrument/Whole.antt =====
-- What `instrument` makes of a whole class.
use phasic_j.Base.{
  ◌≡◌, ◌∙◌, refl, ap, arith, Bool, true, false, ◌&&◌, ◌||◌, inl, inr, Bool-cases, Text, text_eq,
  text_eq_iff, some, List, [], ◌∷◌, ◌++◌,
}
use phasic_j.Jvm.Events.{starts_with}
use phasic_j.Java.Classes.{Method, Class, Asm}
use phasic_j.Java.Instrument.{
  MonitorInsnInstrumenter, Amendment, visit_method, visit_methods, prefixed_fields,
  prefixed_methods, visit_end, visit_class, instrument,
}

pub visit_methods-append :
    (handler : Text) (ms ns : List Method)
    → visit_methods handler (ms ++ ns) ≡ visit_methods handler ms ++ visit_methods handler ns
unfolding visit_methods
visit_methods-append handler [] ns = refl
visit_methods-append handler (m ∷ ms) ns =
    ap (λ rest. visit_method handler m ∷ rest) (visit_methods-append handler ms ns)

-- A method with a name and a descriptor is among some.
unfoldable pub has_method : Text → Text → List Method → Bool
has_method name descriptor [] = false
has_method name descriptor (m ∷ ms) =
    (text_eq m.name name && text_eq m.descriptor descriptor) || has_method name descriptor ms

module _ (name descriptor : Text) where
  has_method-visit_methods :
      (handler : Text) (ms : List Method)
      → has_method name descriptor (visit_methods handler ms) ≡ has_method name descriptor ms
  unfolding has_method visit_methods
  has_method-visit_methods handler [] = refl
  has_method-visit_methods handler (m ∷ ms) = rw (has_method-visit_methods handler ms) refl

  has_method-append :
      (ms ns : List Method)
      → has_method name descriptor ns ≡ true
      → has_method name descriptor (ms ++ ns) ≡ true
  unfolding has_method
  has_method-append [] ns h = h
  has_method-append (m ∷ ms) ns h = ground (arith, has_method-append ms ns h)

  has_method-prefixed :
      (prefix : Text) (ms : List Method)
      → starts_with name prefix ≡ true
      → has_method name descriptor ms ≡ true
      → has_method name descriptor (prefixed_methods prefix ms) ≡ true
  unfolding has_method prefixed_methods
  has_method-prefixed prefix [] p h = h
  has_method-prefixed prefix (m ∷ ms) p h =
      elim (Bool-cases (text_eq m.name name && text_eq m.descriptor descriptor)) [
        | inl e ↦
            let both : (text_eq m.name name ≡ true) × (text_eq m.descriptor descriptor ≡ true) =
              ground arith in
            let kept : starts_with m.name prefix ≡ true =
              rw ((text_eq_iff m.name name).0 both.0) p in
            rw kept (rw e refl)
        | inr e ↦
            let rest = has_method-prefixed prefix ms p (rw e at h) in
            elim (Bool-cases (starts_with m.name prefix)) [
              | inl k ↦ rw k (rw e rest)
              | inr k ↦ rw k rest
            ]
      ]

module _ (asm : Asm) (handler : Text) (a : Amendment) where
  abbrev pub one_amendment : MonitorInsnInstrumenter
  one_amendment = record { event_handler_class = handler; amendments = a ∷ [] }

  module _ (bytes : Text) {c : Class} (has_class : asm.read bytes ≡ some c) where
    -- For a class that can be read and is not the one to be amended, the result is the class with all
    -- its methods instrumented.
    pub instrument-apart :
        text_eq c.name a.class_to_amend ≡ false
        → instrument asm one_amendment bytes
          ≡ asm.write (record c { methods = visit_methods handler c.methods })
    unfolding instrument visit_class visit_end
    instrument-apart apart = rw (has_class, apart)

    -- With one amendment, for a class that can be read and is the one to be amended, if the
    -- amendment's class can be read: the result is the class with the fields and methods of the
    -- amendment that have its prefix behind its own, all methods instrumented, those of the
    -- amendment too.
    instrument-amended :
        {members : Class}
        → text_eq c.name a.class_to_amend ≡ true
        → asm.read a.amend_with_class ≡ some members
        → instrument asm one_amendment bytes
          ≡ asm.write (record c {
            fields = c.fields ++ prefixed_fields a.amendment_members_prefix members.fields;
            methods =
                visit_methods handler
                  (c.methods ++ prefixed_methods a.amendment_members_prefix members.methods);
          })
    unfolding instrument visit_class visit_end
    instrument-amended {members} same has_members =
        rw
          (
            has_class,
            same,
            has_members,
            visit_methods-append handler c.methods
                (prefixed_methods a.amendment_members_prefix members.methods),
          )
          refl

    -- With one amendment, for a class that can be read and is the one to be amended: each method of
    -- the amendment's class whose name has the prefix is a method of the class that is written.
    pub instrument-has_method :
        (name descriptor : Text) {members : Class}
        → text_eq c.name a.class_to_amend ≡ true
        → asm.read a.amend_with_class ≡ some members
        → starts_with name a.amendment_members_prefix ≡ true
        → has_method name descriptor members.methods ≡ true
        → (c' : Class) × (instrument asm one_amendment bytes ≡ asm.write c')
          × (has_method name descriptor c'.methods ≡ true)
    instrument-has_method name descriptor {members} same has_members p h = (
      _,
      instrument-amended same has_members,
      has_method-visit_methods name descriptor handler
            (c.methods ++ prefixed_methods a.amendment_members_prefix members.methods)
          ∙ has_method-append name descriptor c.methods _
              (has_method-prefixed name descriptor a.amendment_members_prefix members.methods p h),
    )
