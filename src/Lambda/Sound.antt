-- ===== src/Lambda/Sound.antt =====
-- What holds of a manager between calls, and that each of its changes keeps it.
use meltica_gateway.Common.{
  Bool, true, false, not, ◌||◌, ◌≡◌, refl, ◌∙◌, Option, none, some, is_some, List, [], nat_eq_iff,
  option-both, if-both, arith,
}
use meltica_gateway.Common.Text.{Text, text_beq, text_beq_iff, text_eq, trim_space}
use meltica_gateway.Common.Map.{get, get-put, get-delete}
use meltica_gateway.Common.Exec.{ok, result-both}
use meltica_gateway.Dispatcher.Table.Match.{has_text}
use meltica_gateway.Dispatcher.Filters.{add_text}
use meltica_gateway.Subscription.Sets.{has_text-add_text}
use meltica_gateway.Lambda.Spec.{LambdaSpec}
use meltica_gateway.Lambda.Usage.{revision_key}
use meltica_gateway.Lambda.Manager.{
  Manager, Instance, World, ManagerError, persist_strategy, store_spec, finish_launch, run_base,
  launch, prepare, check_start, spec_for_id, start, end_instance, stop,
}
use meltica_gateway.Lambda.Own.{own_ids, own_ids-get, own_ids-put}
use meltica_gateway.Lambda.Accounting.{
  usage_has, runs_under, bases_of, base_list, without, has_text-remove_text, revision_key-named,
  usage_has-ensure, usage_has-mark_running, usage_has-mark_stopped, bases_of-cancel,
}

-- Specs stand under their own trimmed ids; the usage of a revision lists the instances that run under
-- its key; the bases that run are those of the instances; and only instances have routes, and names.
pub record IsSound {C : Type 0} (m : Manager C) : Type 0 where
  pub own : own_ids m.specs ≡ true
  pub accounted : (id key : Text) → usage_has m.usage key id ≡ runs_under (get m.instances id) key
  pub tracked : (id : Text) → bases_of m.live id ≡ base_list (get m.instances id)
  pub routed : (id : Text) → has_text m.registered id ≡ true → is_some (get m.instances id) ≡ true
  pub specified :
      (id : Text) → is_some (get m.instances id) ≡ true → is_some (get m.specs id) ≡ true
  pub named :
      (id : Text) (inst : Instance)
      → get m.instances id ≡ some inst
      → (text_beq id [] ≡ false) × (text_beq inst.rev_key [] ≡ false)

module _ {C : Type 0} where
  pub persist_strategy-IsSound :
      (m : Manager C) (id : Text) → IsSound m → IsSound (persist_strategy m id)
  unfolding persist_strategy
  persist_strategy-IsSound m id s =
      option-both (λ (n : Manager C). IsSound n) (get m.specs id) (λ _. s)
        (λ spec _. record {
          own = s.own;
          accounted = s.accounted;
          tracked = s.tracked;
          routed = s.routed;
          specified = s.specified;
          named = s.named;
        })

  pub store_spec-IsSound :
      (m : Manager C) (spec : LambdaSpec C)
      → trim_space spec.id ≡ spec.id
      → IsSound m
      → IsSound (store_spec m spec)
  unfolding store_spec
  store_spec-IsSound m spec trimmed s = persist_strategy-IsSound _ spec.id (record {
    own = own_ids-put m.specs spec.id spec refl trimmed s.own;
    accounted = λ id key. usage_has-ensure m.usage spec.strategy key id ∙ s.accounted id key;
    tracked = s.tracked;
    routed = s.routed;
    specified = λ id runs. ground (arith, get-put m.specs spec.id id spec, s.specified id runs);
    named = s.named;
  })

  finish_launch-IsSound :
      (w : World C) (m : Manager C) (spec : LambdaSpec C) (registered : List Text)
      → text_beq spec.id [] ≡ false
      → is_some (get m.specs spec.id) ≡ true
      → get m.instances spec.id ≡ none
      → ((id : Text)
          → has_text registered id ≡ true
          → (is_some (get m.instances id) || text_beq id spec.id) ≡ true)
      → IsSound m
      → IsSound (finish_launch w spec (record m { registered = registered }))
  unfolding finish_launch runs_under bases_of base_list
  finish_launch-IsSound w m spec registered named there stopped routes s =
      let inst : Instance = record { base = m.next_base; rev_key = revision_key spec.strategy } in
      persist_strategy-IsSound _ spec.id (record {
        own = s.own;
        accounted = λ id key.
            usage_has-mark_running m.usage spec.strategy spec.id w.now key id named
            ∙ ground (
              arith,
              s.accounted id key,
              stopped,
              get-put m.instances spec.id id inst,
              text_beq_iff id spec.id,
              text_beq_iff spec.id id,
            );
        tracked = λ id. ground (
          arith,
          s.tracked id,
          stopped,
          get-put m.instances spec.id id inst,
          text_beq_iff spec.id id,
        );
        routed = λ id has. ground (
          arith,
          routes id has,
          get-put m.instances spec.id id inst,
          text_beq_iff id spec.id,
          text_beq_iff spec.id id,
        );
        specified = λ id runs. ground (
          arith,
          runs,
          there,
          s.specified id,
          get-put m.instances spec.id id inst,
          text_beq_iff spec.id id,
        );
        named = λ id i e. (
          ground (
            arith,
            e,
            named,
            get-put m.instances spec.id id inst,
            text_beq_iff spec.id id,
            s.named id i,
          ),
          ground (
            arith,
            e,
            revision_key-named spec.strategy,
            get-put m.instances spec.id id inst,
            text_beq_iff spec.id id,
            s.named id i,
          ),
        );
      })

  run_base-IsSound :
      (w : World C) (m : Manager C) (spec : LambdaSpec C) (has_routes : Bool)
      → text_beq spec.id [] ≡ false
      → is_some (get m.specs spec.id) ≡ true
      → get m.instances spec.id ≡ none
      → IsSound m
      → IsSound ((run_base w spec has_routes m).1)
  unfolding run_base
  run_base-IsSound w m spec false named there stopped s =
      if-both (λ (r : Option ManagerError × Manager C). IsSound (r.1)) (w.starts spec.id)
        (λ _.
          finish_launch-IsSound w m spec m.registered named there stopped
            (λ id has. ground (arith, s.routed id has)) s)
        (λ _. s)
  run_base-IsSound w m spec true named there stopped s =
      if-both (λ (r : Option ManagerError × Manager C). IsSound (r.1)) (not (w.registers spec.id))
        (λ _. s)
        (λ _.
          if-both (λ (r : Option ManagerError × Manager C). IsSound (r.1)) (w.starts spec.id)
            (λ _.
              finish_launch-IsSound w m spec (add_text m.registered spec.id) named there stopped
                (λ id has.
                  ground (arith, has, s.routed id, has_text-add_text m.registered spec.id id))
                s)
            (λ _. record {
              own = s.own;
              accounted = s.accounted;
              tracked = s.tracked;
              routed = λ id has. ground (
                arith,
                has,
                s.routed id,
                has_text-remove_text (add_text m.registered spec.id) spec.id id,
                has_text-add_text m.registered spec.id id,
              );
              specified = s.specified;
              named = s.named;
            }))

  pub launch-IsSound :
      (w : World C) (m : Manager C) (spec : LambdaSpec C)
      → text_beq spec.id [] ≡ false
      → is_some (get m.specs spec.id) ≡ true
      → get m.instances spec.id ≡ none
      → IsSound m
      → IsSound ((launch w spec m).1)
  unfolding launch
  launch-IsSound w m spec named there stopped s =
      result-both (λ (r : Option ManagerError × Manager C). IsSound (r.1)) (prepare w spec)
        (λ e _. s) (λ has_routes _. run_base-IsSound w m spec has_routes named there stopped s)

  pub check_start-ok :
      (id : Text) (m : Manager C) (spec : LambdaSpec C)
      → check_start id m ≡ ok spec
      → (text_beq (trim_space id) [] ≡ false)
        × (get m.specs (trim_space id) ≡ some spec)
        × (is_some (get m.instances spec.id) ≡ false)
  unfolding check_start spec_for_id
  check_start-ok id m spec checked = ground (arith, checked)

  pub start-IsSound :
      (w : World C) (id : Text) (m : Manager C) → IsSound m → IsSound ((start w id m).1)
  unfolding start
  start-IsSound w id m s =
      result-both (λ (r : Option ManagerError × Manager C). IsSound (r.1)) (check_start id m)
        (λ e _. s)
        (λ spec checked.
          let (named, found, stopped) = check_start-ok id m spec checked in
          let key : spec.id ≡ trim_space id =
            (own_ids-get m.specs (trim_space id) spec s.own found).0 in
          launch-IsSound w m spec (rw key named) (rw (key, found) refl) (ground (arith, stopped)) s)

  end_instance-IsSound :
      (w : World C) (id : Text) (inst : Instance) (m : Manager C)
      → get m.instances id ≡ some inst
      → IsSound m
      → IsSound (end_instance w id inst m)
  unfolding end_instance bases_of base_list runs_under without
  end_instance-IsSound w id inst m runs s =
      let (named, keyed) = s.named id inst runs in
      persist_strategy-IsSound _ id (record {
        own = s.own;
        accounted = λ j key.
            usage_has-mark_stopped m.usage inst.rev_key id w.now key j named keyed
            ∙ ground (
              arith,
              s.accounted j key,
              runs,
              get-delete m.instances id j,
              text_beq_iff id j,
              text_beq_iff j id,
            );
        tracked = λ j.
            bases_of-cancel m.live id inst.base j
            ∙ ground (
              arith,
              s.tracked j,
              runs,
              get-delete m.instances id j,
              text_beq_iff id j,
              nat_eq_iff inst.base inst.base,
            );
        routed = λ j has. ground (
          arith,
          has,
          s.routed j,
          get-delete m.instances id j,
          has_text-remove_text m.registered id j,
          text_beq_iff id j,
          text_beq_iff j id,
        );
        specified = λ j has.
            ground (arith, has, s.specified j, get-delete m.instances id j, text_beq_iff id j);
        named = λ j i e. (
          ground (arith, e, s.named j i, get-delete m.instances id j, text_beq_iff id j),
          ground (arith, e, s.named j i, get-delete m.instances id j, text_beq_iff id j),
        );
      })

  pub stop-IsSound :
      (w : World C) (id : Text) (m : Manager C) → IsSound m → IsSound ((stop w id m).1)
  unfolding stop
  stop-IsSound w id m s =
      option-both (λ (r : Option ManagerError × Manager C). IsSound (r.1))
        (get m.instances (trim_space id)) (λ _. s)
        (λ inst runs. end_instance-IsSound w (trim_space id) inst m runs s)
