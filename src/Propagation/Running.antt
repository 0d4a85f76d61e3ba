-- ===== src/Propagation/Running.antt =====
-- The account of the outbound budget over any run of the sync sessions of rfed/src/lxmf_propagation.rs.
use rfed.Base.{
  ℕ, ◌^◌, ◌<◌, refl, Option, none, some, Bytes, Bool, true, false, filter, length-filter_le,
}
use rfed.Propagation.Entries.{PropagationEntry}
use rfed.Propagation.Node.{LxmfPropagationNode}
use rfed.Propagation.Answering.{Leaves}
use rfed.Propagation.Offer.{PreparedOffer, prepare_sync}
use rfed.Propagation.Plan.{plan_offer}
use rfed.Propagation.Sharing.{max_offer_ids}
use rfed.Propagation.Transfer.{send_sync_resource}
use rfed.Propagation.Opening.{prepare_sync-Settled}
use rfed.Propagation.Offering.{send_offer-Settled}
use rfed.Propagation.Answering.{ListsOnce, apply_offer_response-Account, on_offer_failed-Settled}
use rfed.Propagation.Sending.{send_sync_resource-Settled, send_failed-Settled}
use rfed.Propagation.Concluding.{
  apply_resource_outcome-Account, on_link_active-Account, on_link_down-Settled,
}
use rfed.Propagation.Sessions.{
  Work, free, syncing, offering, sending, starting, SyncEvent, start, link_active, link_down,
  offer_response, offer_failed, resource_concluded, SyncStep, takes, prepares, offers, sends,
  starts, then_offer, handle_sync_event, work_step,
}
use rfed.Propagation.Accounts.{IsSession, Account}
use rfed.Propagation.Opening.{Settled}
use rfed.Propagation.Upkeep.{pending-IsSession, weaken-Account, free-IsSession}

-- Each answer that is a list, in a step, has no id twice.
abbrev pub EventListsOnce : SyncEvent → Type 0
EventListsOnce (offer_response hash session answer) = ListsOnce answer
EventListsOnce (start hash) = Unit
EventListsOnce (link_active hash link active) = Unit
EventListsOnce (link_down hash active attempt) = Unit
EventListsOnce (offer_failed hash session) = Unit
EventListsOnce (resource_concluded hash session is_complete active) = Unit

abbrev pub StepListsOnce : SyncStep → Type 0
StepListsOnce (takes t held event) = EventListsOnce event
StepListsOnce _ = Unit

module _ {limit u : ℕ} where
  then_offer-Account :
      (hash : Bytes) (n : LxmfPropagationNode) (prepared : Option PreparedOffer)
      → Settled limit u n
      → Leaves limit u (then_offer hash (n, prepared))
  then_offer-Account hash n none a = a
  then_offer-Account hash n (some prepared) a =
      weaken-Account n a (λ h p found s. free-IsSession (offering hash prepared) h p refl s)

  handle_sync_event-Account :
      (n : LxmfPropagationNode) (t : ℕ) (held : Bool) (event : SyncEvent)
      → limit < 2 ^ 64
      → EventListsOnce event
      → Settled limit u n
      → Leaves limit u (handle_sync_event n t u held event)
  unfolding handle_sync_event
  handle_sync_event-Account n t held (start hash) l once a =
      weaken-Account n a (λ h p found s. free-IsSession (syncing hash) h p refl s)
  handle_sync_event-Account n t held (link_active hash link active) l once a =
      on_link_active-Account n hash link active a
  handle_sync_event-Account n t held (link_down hash active attempt) l once a =
      on_link_down-Settled n hash active attempt a
  handle_sync_event-Account n t held (offer_response hash session answer) l once a =
      apply_offer_response-Account n hash session t answer a once
  handle_sync_event-Account n t held (offer_failed hash session) l once a =
      on_offer_failed-Settled n hash session a
  handle_sync_event-Account n t held (resource_concluded hash session is_complete active) l once a =
      apply_resource_outcome-Account n hash session is_complete t held active l a

module _ (message_path : Bytes → PropagationEntry → Bytes) (resource_limit : ℕ) {limit : ℕ} where
  -- The worker makes the next step of what it has in hand, or none.
  pub work_step-Account :
      (u : ℕ) (n : LxmfPropagationNode) (work : Work) (c : SyncStep)
      → limit < 2 ^ 64
      → StepListsOnce c
      → Account limit (IsSession work) u n
      → Leaves limit u (work_step message_path resource_limit n work u c)
  unfolding work_step
  work_step-Account u n free (takes t held event) l once a =
      handle_sync_event-Account n t held event l once a
  work_step-Account u n (syncing hash) (prepares t held active) l once a =
      then_offer-Account hash (prepare_sync n hash t held active).0
        (prepare_sync n hash t held active).1
        (prepare_sync-Settled n hash t held active (
          weaken-Account n a
            (λ h p found s. pending-IsSession (syncing hash) free h p (λ e. refl) s)))
  work_step-Account u n (offering hash prepared) (offers t held identifies requests) l once a =
      send_offer-Settled n hash prepared.session
        (plan_offer prepared.transfer_limit_kb prepared.sync_limit_kb max_offer_ids resource_limit
          prepared.candidates)
        t held identifies requests l
        (weaken-Account n a
          (λ h p found s. pending-IsSession (offering hash prepared) free h p (λ e. refl) s))
  work_step-Account u n (sending hash session files) (sends readable missing) l once a =
      weaken-Account
        (send_sync_resource message_path n hash session (filter readable files) missing u)
        (send_sync_resource-Settled message_path n hash session files (filter readable files)
          missing a (length-filter_le readable files))
        (λ h p found s. free-IsSession (starting hash session) h p refl s)
  work_step-Account u n (starting hash session) (starts true) l once a =
      weaken-Account n a
        (λ h p found s. pending-IsSession (starting hash session) free h p (λ e. refl) s)
  work_step-Account u n (starting hash session) (starts false) l once a =
      send_failed-Settled n hash session (
        weaken-Account n a
          (λ h p found s. pending-IsSession (starting hash session) free h p (λ e. refl) s))
  work_step-Account u n work c l once a = a
