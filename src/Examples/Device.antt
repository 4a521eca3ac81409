-- ===== src/Examples/Device.antt =====
-- A switch object with the attribute `entries`, as the tests of the repository use one, and an Agent
-- over it.
use reconfig_net_sim.Prelude.{
  ℕ, String, ◌≡◌, refl, sym, ap, true, false, Option, none, some, List, [], ◌∷◌,
}
use reconfig_net_sim.Prelude.Int.{pos}
use reconfig_net_sim.Value.{Value}
use reconfig_net_sim.Errors.{Raised, fmt, ok, other}
use reconfig_net_sim.Exec.{raise}
use reconfig_net_sim.PairSet.{Pair, PairSet, mem, add, diff}
use reconfig_net_sim.Inventory.{Port, PortInventory}
use reconfig_net_sim.Connection.{Connection}
use reconfig_net_sim.ConnectionSet.{ConnectionSet}
use reconfig_net_sim.Backend.{Backend}
use reconfig_net_sim.Lease.{Clock}
use reconfig_net_sim.P4app.{Switch, backend}
use reconfig_net_sim.P4app.Contract.{IsTable}
use reconfig_net_sim.Agent.State.{WriteOptions}
use reconfig_net_sim.Agent.Startup.{Config}

abbrev no_table : Raised
no_table = other (fmt "no table" [])

abbrev pub list_switch : Switch
list_switch = record {
  State = PairSet;
  own_entries = some (λ s. s);
  has_runtime = false;
  can_read_table = false;
  has_client_stub = false;
  table_id = 1;
  read_table = λ id. raise no_table;
  runtime_insert = λ p. raise no_table;
  runtime_delete = λ p. raise no_table;
  own_insert = λ p s. (ok tt, add p s);
  own_delete = λ p s. (ok tt, diff s (p ∷ []));
  batch_insert = λ ps. raise no_table;
  batch_delete = λ ps. raise no_table;
}

abbrev attribute_or : Option (PairSet → List Pair) → PairSet → List Pair
attribute_or none s = []
attribute_or (some list) s = list s

pub list_switch-IsTable : IsTable list_switch (λ s. s)
list_switch-IsTable = record {
  own = λ list h s p. ap (λ (o : Option (PairSet → List Pair)). mem p (attribute_or o s)) (sym h);
  keeps = λ id s p. refl;
  rows = λ s t rows h. absurd (cc h);
  plain = λ s t x h. let same : no_table ≡ x = cc h in rw (← same);
}

abbrev pub device : Backend
device = backend list_switch

abbrev pub port : ℕ → String → Port
port n s = record { name = s; index = n }

abbrev pub four_ports : PortInventory
four_ports = record {
  ports = port 1 "port-1" ∷ port 2 "port-2" ∷ port 3 "port-3" ∷ port 4 "port-4" ∷ [];
}

abbrev pub link : String → String → String → Connection
link name a b = record { name = name; near_port_name = a; far_port_name = b; bidirectional = true }

abbrev pub first_link : Connection
first_link = link "first" "port-1" "port-2"

abbrev pub one_link : ConnectionSet
one_link = record {
  inventory = four_ports;
  connections = first_link ∷ [];
  occupied = ("port-2", "first") ∷ ("port-1", "first") ∷ [];
}

abbrev pub other_link : ConnectionSet
other_link = record {
  inventory = four_ports;
  connections = link "other" "port-3" "port-4" ∷ [];
  occupied = ("port-4", "other") ∷ ("port-3", "other") ∷ [];
}

abbrev pub clock : Clock
clock = record { monotonic = 10; granted = 11; unix_ns = 1000 }

abbrev pub config : String → Config
config policy = record {
  inventory = four_ports;
  initial_connections = one_link;
  consistency_mode = "CACHED_ACK";
  lease_seconds = 30000000000;
  startup_policy = policy;
}

abbrev pub options : ℕ → String → WriteOptions
options revision transport = record {
  strategy = "DELTA";
  transport = transport;
  delay_us = Value.int (pos 0);
  expected_revision = Value.int (pos revision);
  lease_token = some "t";
}
