-- ===== src/Service/Publishing.antt =====
-- A publication changes the bus and nothing else, and never fails.
use open_mos.Prelude.{◌≡◌, arith}
use open_mos.Outcome.{ok}
use open_mos.Events.{Event}
use open_mos.Service.{MosService, publish_event}

module _ (e : Event) (s : MosService) where
  pub publish-ok : (publish_event e s).0 ≡ ok tt
  publish-ok = ground arith

  pub stories-publish : (publish_event e s).1.stories ≡ s.stories
  stories-publish = ground arith

  pub items-publish : (publish_event e s).1.items ≡ s.items
  items-publish = ground arith

  pub running_orders-publish : (publish_event e s).1.running_orders ≡ s.running_orders
  running_orders-publish = ground arith

pub ruleset publishing = (publish-ok, stories-publish, items-publish, running_orders-publish)
