-- ===== src/Validation/Accepted.antt =====
-- The validator accepts exactly the services that PTV takes by its rules
-- (src/validation/changeValidator.ts).
use ptv_mcp.Base.{◌≡◌, ◌↔◌, true, [], map, length, All}
use ptv_mcp.Validation.Domain.{Service}
use ptv_mcp.Validation.NoErrors.{valid_iff}
use ptv_mcp.Validation.ServiceRules
use ptv_mcp.Validation.Writable.{WritableService}
use ptv_mcp.Validation.RuleLaws.{
  names_rule, organization_rule, type_rule, languages_rule, limit_rule, uris_rule, code_rule,
  term_uris_rule, classified_rule, subclass_of, businesses_of, status_rule,
}

module _ (s : Service) where
  no_errors :
      ((ServiceRules.validate_service s).valid ≡ true)
      ↔ All (λ errors. errors ≡ []) (ServiceRules.service_rules s)
  unfolding ServiceRules.validate_service
  no_errors = valid_iff (ServiceRules.service_rules s)

  accepted : All (λ errors. errors ≡ []) (ServiceRules.service_rules s) → WritableService s
  unfolding ServiceRules.validate_ontology_terms_limit ServiceRules.validate_service_classes_limit
      ServiceRules.validate_industrial_class_target_groups
      ServiceRules.validate_not_only_main_service_classes
  accepted
        (
          names,
          (
            org,
            (
              type,
              (
                langs,
                (terms, (classes, (uris, (codes, (koko, (needs, (sub, (status, (groups, _))))))))),
              ),
            ),
          ),
        ) =
      let (c, t, g, e) = (uris_rule s).0 uris in
      record {
        named = (names_rule s.names).0 names;
        owned = (organization_rule s).0 org;
        typed = (type_rule s).0 type;
        spoken = (languages_rule s.languages).0 langs;
        few_terms = (limit_rule 10 (length s.ontology_terms) _).0 terms;
        few_classes = (limit_rule 4 (length s.service_classes) _).0 classes;
        class_uris = c;
        term_uris = t;
        group_uris = g;
        event_uris = e;
        codes = (code_rule s).0 codes;
        koko = (term_uris_rule s).0 koko;
        classified = (classified_rule s).0 needs;
        subclass = (subclass_of s.service_classes _).0 sub;
        status = (status_rule s.publishing_status).0 status;
        businesses =
            (businesses_of s.industrial_classes (map ServiceRules.code_of s.target_groups) _).0
              groups;
      }

  silent : WritableService s → All (λ errors. errors ≡ []) (ServiceRules.service_rules s)
  unfolding ServiceRules.validate_ontology_terms_limit ServiceRules.validate_service_classes_limit
      ServiceRules.validate_industrial_class_target_groups
      ServiceRules.validate_not_only_main_service_classes
  silent w = (
    (names_rule s.names).1 w.named,
    (
      (organization_rule s).1 w.owned,
      (
        (type_rule s).1 w.typed,
        (
          (languages_rule s.languages).1 w.spoken,
          (
            (limit_rule 10 (length s.ontology_terms) _).1 w.few_terms,
            (
              (limit_rule 4 (length s.service_classes) _).1 w.few_classes,
              (
                (uris_rule s).1 (w.class_uris, w.term_uris, w.group_uris, w.event_uris),
                (
                  (code_rule s).1 w.codes,
                  (
                    (term_uris_rule s).1 w.koko,
                    (
                      (classified_rule s).1 w.classified,
                      (
                        (subclass_of s.service_classes _).1 w.subclass,
                        (
                          (status_rule s.publishing_status).1 w.status,
                          (
                            (businesses_of s.industrial_classes
                                  (map ServiceRules.code_of s.target_groups) _).1
                                w.businesses,
                            tt,
                          ),
                        ),
                      ),
                    ),
                  ),
                ),
              ),
            ),
          ),
        ),
      ),
    ),
  )

  -- The validator accepts a service exactly when it has a name that is not blank in some language,
  -- an organisation, one of the three service types and a language, at most ten ontology terms and
  -- four service classes, a URI on every class, term, target group and life event, a code or URI
  -- on every industrial class, KOKO URIs on its terms, without a general description at least one
  -- class, term and target group, not only main classes, a state that can be written, and, with
  -- industrial classes, target group KR2 and one of its subgroups.
  pub validate_service-WritableService :
      ((ServiceRules.validate_service s).valid ≡ true) ↔ WritableService s
  validate_service-WritableService =
      ((λ h. accepted (no_errors.0 h)), (λ w. no_errors.1 (silent w)))
