-- ===== src/Multiplexing.antt =====
-- What the multiplexer loops share: spoki/libspoki/spoki/operation.hpp, and the interest in events as
-- the poll backends keep it.

-- operation.hpp
pub data Operation : Type 0 where
  read write : Operation

-- the `events` of a `pollfd`, which `mods_` replaces
pub data Events : Type 0 where
  no_events pollin pollout : Events

abbrev pub events_of : Operation → Events
events_of Operation.read = Events.pollin
events_of Operation.write = Events.pollout
