-- ===== src/Rotation/Effects.antt =====
-- src/rotation.rs: each method of `RotationCatalog` makes one move.
use ops_light_secrets_server.Prelude.{ℕ, refl, sym, subst, Bool, Option, List}
use ops_light_secrets_server.Prelude.Order.{nat_ord}
use ops_light_secrets_server.Prelude.Text.{Text}
use ops_light_secrets_server.Prelude.Leads.{
  gets_leads, lift_leads, some_or_leads, refuse_leads, modify_leads, when_leads, pure_leads,
}
use ops_light_secrets_server.BTreeMap.{BTreeMap}
use ops_light_secrets_server.Kv.Value.{Map}
use ops_light_secrets_server.Kv.Service.{Json}
use ops_light_secrets_server.Store.Sealed.{Mac}
use ops_light_secrets_server.Control.Catalog.{ManagementCatalog, ManagementPrincipal}
use ops_light_secrets_server.Rotation.Lifecycle.{RotationError, prepared, cutover}
use ops_light_secrets_server.Rotation.Catalog.{RotationSnapshotInput, World}
use ops_light_secrets_server.Rotation.Service.{
  begin, refresh, cancel, rollback, supersede_after_plain_write, finish,
}
use ops_light_secrets_server.Rotation.Service
use ops_light_secrets_server.Rotation.Reads.{AdoptionMember, ReadObservation}
use ops_light_secrets_server.Rotation.Closeout.{complete, close}
use ops_light_secrets_server.Rotation.Overview.{show, status, RotationFilter}
use ops_light_secrets_server.Rotation.Overview
use ops_light_secrets_server.Rotation.Moves.{
  Follows, refreshed, cut_over, cancelled, closed, overtaken, begun, R, view_of, managing_leads,
  serving_leads, show_leads, install_leads, show_ends, finish_leads, unless_completed_leads,
}
use ops_light_secrets_server.Rotation.Guards.{
  Moved, still, Guarded, guarded, advance, edge, none_of, refuse_open-none, require_state-fields,
  ensure_history_room-fields,
}

module _ (m : Mac) (w : World) where
  module _ (principal : ManagementPrincipal) (request_id id : ℕ) where
    pub begin-Move :
        (json : Json) (resource : Text) (snapshot : RotationSnapshotInput) (now : ℕ)
        → (Moved m w)
            (begin json m principal request_id id resource snapshot now w).1.rotations.rows
    unfolding begin
    begin-Move json resource snapshot now =
        unless_completed_leads (Moved m w) m principal request_id _ id _ w (still m w)
          (λ management. refuse_leads (R (Moved m w)) _ _ _ _ (still m w) (λ e1.
            gets_leads (R (Moved m w)) _ _ _ (
              refuse_leads (R (Moved m w)) _ _ _ _ (still m w) (λ free.
                gets_leads (R (Moved m w)) _ _ _ (
                  lift_leads (R (Moved m w)) _ _ _ (still m w) (λ u1 none_open.
                    lift_leads (R (Moved m w)) _ _ _ (still m w) (λ u2 e2.
                      lift_leads (R (Moved m w)) _ _ _ (still m w) (λ endpoint e3.
                        serving_leads (Moved m w) _ _ _ (still m w) (λ current kv1.
                          serving_leads (Moved m w) _ _ _ (still m w) (λ u3 kv2.
                            install_leads (Moved m w) m _ _ _ _ (still m w) (λ row sealed.
                              finish_leads (Moved m w) m principal request_id _ id _ _ (
                                begun _ row (none_of _ free) (refuse_open-none _ none_open) refl
                                  (_, refl, refl) sealed refl))))))))))))

    pub refresh-Move :
        (json : Json) (expected : ℕ) (snapshot : RotationSnapshotInput) (now : ℕ)
        → (Moved m w)
            (refresh json m principal request_id id expected snapshot now w).1.rotations.rows
    unfolding refresh
    refresh-Move json expected snapshot now =
        unless_completed_leads (Moved m w) m principal request_id _ id _ w (still m w)
          (λ management. lift_leads (R (Moved m w)) _ _ _ (still m w) (λ u1 e1.
            lift_leads (R (Moved m w)) _ _ _ (still m w) (λ u2 e2.
              guarded m w id expected prepared _ management (λ old generation endpoint h.
                serving_leads (Moved m w) _ _ _ (still m w) (λ live kv1.
                  serving_leads (Moved m w) _ _ _ (still m w) (λ u5 kv2.
                    install_leads (Moved m w) m _ _ _ _ (still m w) (λ row sealed.
                      finish_leads (Moved m w) m principal request_id _ id _ _ (
                        advance m w id generation expected prepared old row _ h
                          (edge m w id generation expected prepared old _ _ h
                            (subst (Follows prepared) (sym h.in_state) refreshed) refl refl refl
                            (sym h.in_state))
                          sealed))))))))

    pub cutover-Move :
        (json : Json) (expected : ℕ) (replacement : Map) (now : ℕ)
        → (Moved m w)
            (Service.cutover json m principal request_id id expected replacement now
              w).1.rotations.rows
    unfolding Service.cutover
    cutover-Move json expected replacement now =
        unless_completed_leads (Moved m w) m principal request_id _ id _ w (still m w)
          (λ management. lift_leads (R (Moved m w)) _ _ _ (still m w) (λ u1 e1.
            guarded m w id expected prepared _ management (λ old generation endpoint h.
              serving_leads (Moved m w) _ _ _ (still m w) (λ written kv1.
                install_leads (Moved m w) m _ _ _ _ (still m w) (λ row sealed.
                  finish_leads (Moved m w) m principal request_id _ id _ _ (
                    advance m w id generation expected prepared old row _ h
                      (edge m w id generation expected prepared old _ _ h cut_over refl refl refl
                        refl)
                      sealed))))))

    pub cancel-Move :
        (json : Json) (expected : ℕ) (now : ℕ) (reason : Text)
        → (Moved m w) (cancel json m principal request_id id expected now reason w).1.rotations.rows
    unfolding cancel
    cancel-Move json expected now reason =
        unless_completed_leads (Moved m w) m principal request_id _ id _ w (still m w)
          (λ management. lift_leads (R (Moved m w)) _ _ _ (still m w) (λ u1 e1.
            lift_leads (R (Moved m w)) _ _ _ (still m w) (λ u2 e2.
              guarded m w id expected prepared _ management (λ old generation endpoint h.
                serving_leads (Moved m w) _ _ _ (still m w) (λ u3 kv1.
                  install_leads (Moved m w) m _ _ _ _ (still m w) (λ row sealed.
                    finish_leads (Moved m w) m principal request_id _ id _ _ (
                      advance m w id generation expected prepared old row _ h
                        (edge m w id generation expected prepared old _ _ h cancelled refl refl refl
                          refl)
                        sealed)))))))

    pub rollback-Move :
        (json : Json) (expected : ℕ) (now : ℕ) (reason : Text)
        → (Moved m w)
            (rollback json m principal request_id id expected now reason w).1.rotations.rows
    unfolding rollback
    rollback-Move json expected now reason =
        unless_completed_leads (Moved m w) m principal request_id _ id _ w (still m w)
          (λ management. lift_leads (R (Moved m w)) _ _ _ (still m w) (λ u1 e1.
            lift_leads (R (Moved m w)) _ _ _ (still m w) (λ u2 e2.
              guarded m w id expected cutover _ management (λ old generation endpoint h.
                serving_leads (Moved m w) _ _ _ (still m w) (λ live kv1.
                  serving_leads (Moved m w) _ _ _ (still m w) (λ written kv2.
                    serving_leads (Moved m w) _ _ _ (still m w) (λ u3 kv3.
                      install_leads (Moved m w) m _ _ _ _ (still m w) (λ row sealed.
                        finish_leads (Moved m w) m principal request_id _ id _ _ (
                          advance m w id generation expected cutover old row _ h
                            (edge m w id generation expected cutover old _ _ h overtaken refl refl
                              refl refl)
                            sealed)))))))))

    pub close-Move :
        (expected current_version : ℕ) (members : List AdoptionMember) (acknowledged : Bool)
        (reason : Option Text) (now : ℕ) (management : ManagementCatalog)
        → (Moved m w)
            (close m principal request_id id expected current_version members acknowledged reason
              now
              (record w { management = management })).1.rotations.rows
    unfolding close
    close-Move expected current_version members acknowledged reason now management =
        lift_leads (R (Moved m w)) _ _ _ (still m w) (λ u1 e1.
          show_leads (Moved m w) m id _ _ (still m w) (λ old found.
            lift_leads (R (Moved m w)) _ _ _ (still m w) (λ u2 e2.
              lift_leads (R (Moved m w)) _ _ _ (still m w) (λ u3 e3.
                some_or_leads (R (Moved m w)) _ _ _ _ (still m w) (λ target e4.
                  refuse_leads (R (Moved m w)) _ _ _ _ (still m w) (λ e5.
                    refuse_leads (R (Moved m w)) _ _ _ _ (still m w) (λ e6.
                      lift_leads (R (Moved m w)) _ _ _ (still m w) (λ generation e7.
                        install_leads (Moved m w) m _ _ _ _ (still m w) (λ row sealed.
                          modify_leads (R (Moved m w)) _ _ _ (
                            let (a, b) = require_state-fields (view_of old) expected cutover e2 in
                            let h : Guarded m w id expected generation cutover old = record {
                              found = found;
                              current = a;
                              in_state = b;
                              had_room = ensure_history_room-fields (view_of old) e3;
                              bumped = e7;
                            } in
                            let moved : (Moved m w) _ =
                              advance m w id generation expected cutover old row _ h
                                (edge m w id generation expected cutover old _ _ h closed refl refl
                                  refl refl)
                                sealed in
                            managing_leads (Moved m w) _ _ _ moved
                              (λ v mg. pure_leads RotationError (R (Moved m w)) _ _ moved)))))))))))

    pub complete-Move :
        (expected current_version : ℕ) (members : List AdoptionMember) (acknowledged : Bool)
        (reason : Option Text) (now : ℕ)
        → (Moved m w)
            (complete m principal request_id id expected current_version members acknowledged reason
              now w).1.rotations.rows
    unfolding complete
    complete-Move expected current_version members acknowledged reason now =
        managing_leads (Moved m w) _ _ w (still m w) (λ v management.
          gets_leads (R (Moved m w)) _ _ _ (
            when_leads (R (Moved m w)) _ _ _ _
              (λ e. pure_leads RotationError (R (Moved m w)) _ _ (still m w))
              (λ e.
                close-Move expected current_version members acknowledged reason now management)))

    pub show-Move : (Moved m w) (show m principal request_id id w).1.rotations.rows
    unfolding show
    show-Move =
        managing_leads (Moved m w) _ _ w (still m w)
          (λ v management. show_ends (Moved m w) m id _ (still m w))

    pub status-Move :
        (observations : List ReadObservation) (retired : List ℕ) (cutover_sequence cutoff : ℕ)
        (lookback : Option ℕ) (now : ℕ) (instances identities : BTreeMap ℕ ℕ)
        → (Moved m w)
            (status m principal request_id id observations retired cutover_sequence cutoff lookback
              now instances identities w).1.rotations.rows
    unfolding status
    status-Move observations retired cutover_sequence cutoff lookback now instances identities =
        managing_leads (Moved m w) _ _ w (still m w) (λ v management.
          show_leads (Moved m w) m id _ _ (still m w) (λ old found.
            refuse_leads (R (Moved m w)) _ _ _ _ (still m w) (λ e1.
              some_or_leads (R (Moved m w)) _ _ _ _ (still m w) (λ target e2.
                lift_leads (R (Moved m w)) _ _ _ (still m w)
                  (λ members e3. pure_leads RotationError (R (Moved m w)) _ _ (still m w))))))

    pub list-Move :
        (count : ℕ) (f : RotationFilter)
        → (Moved m w) (Overview.list m principal request_id count f w).1.rotations.rows
    unfolding Overview.list
    list-Move count f = managing_leads (Moved m w) _ _ w (still m w) (λ v management.
        refuse_leads (R (Moved m w)) _ _ _ _ (still m w) (λ e1. gets_leads (R (Moved m w)) _ _ _ (
          lift_leads (R (Moved m w)) _ _ _ (still m w)
            (λ views e2. pure_leads RotationError (R (Moved m w)) _ _ (still m w)))))

  pub supersede_after_plain_write-Move :
      (json : Json) (id expected now : ℕ)
      → (Moved m w) (supersede_after_plain_write json m id expected now w).1.rotations.rows
  unfolding supersede_after_plain_write
  supersede_after_plain_write-Move json id expected now =
      lift_leads (R (Moved m w)) _ _ w (still m w) (λ u1 e1.
        guarded m w id expected cutover _ w.management (λ old generation endpoint h.
          serving_leads (Moved m w) _ _ _ (still m w) (λ live kv1.
            refuse_leads (R (Moved m w)) _ _ _ _ (still m w) (λ e2.
              serving_leads (Moved m w) _ _ _ (still m w) (λ u3 kv2.
                install_leads (Moved m w) m _ _ _ _ (still m w) (λ row sealed.
                  show_ends (Moved m w) m id _ (
                    advance m w id generation expected cutover old row _ h
                      (edge m w id generation expected cutover old _ _ h overtaken refl refl refl
                        refl)
                      sealed)))))))
