-- ===== src/Files/Laws.antt =====
-- What a configuration that loads promises to the Agent that starts from it (agent/python/ocs_agent/
-- config.py and profile.py).
use reconfig_net_sim.Prelude.{String, ◌≡◌}
use reconfig_net_sim.Value.{Fields, get}
use reconfig_net_sim.Inventory.{make_inventory}
use reconfig_net_sim.Inventory.Laws.{IsInventory, make_inventory-IsInventory}
use reconfig_net_sim.ConnectionSet.{make_set}
use reconfig_net_sim.ConnectionSet.Matching.{IsMatching, make_set-IsMatching}
use reconfig_net_sim.Files.Ensures.{Ensures, Ensures-intro, Ensures-bind, Ensures-skip}
use reconfig_net_sim.Files.Objects.{Process, load_yaml}
use reconfig_net_sim.Files.Model.{
  Model, ports_of, components_root, component_list, profile_name, optional_text, load_inventory,
  load_connections, model_of, load_model,
}

pub record IsModel (m : Model) : Type 0 where
  pub ports : IsInventory m.inventory
  pub matching : IsMatching m.connections
  pub same_inventory : m.connections.inventory ≡ m.inventory

load_inventory-IsInventory : (file : Fields) → Ensures IsInventory (load_inventory file)
unfolding load_inventory
load_inventory-IsInventory file = Ensures-skip IsInventory (components_root file) _ (λ root.
    Ensures-skip IsInventory (component_list root) _ (λ components.
      Ensures-skip IsInventory (ports_of components) _ (λ ports.
        Ensures-intro IsInventory (make_inventory ports) (make_inventory-IsInventory ports))))

model_of-IsModel : (file : Fields) → Ensures IsModel (model_of file)
unfolding model_of
model_of-IsModel file =
    Ensures-bind IsModel IsInventory (load_inventory file) _ (load_inventory-IsInventory file)
      (λ inventory ports. Ensures-skip IsModel (load_connections file) _ (λ connections.
        Ensures-skip IsModel (profile_name file) _ (λ profile.
          Ensures-skip IsModel (optional_text (get file "capability-profile")) _ (λ capability.
            Ensures-bind IsModel (λ s. IsMatching s × (s.inventory ≡ inventory))
              (make_set inventory connections) _
              (Ensures-intro _ (make_set inventory connections) (λ s made.
                let (valid, same, _) = make_set-IsMatching inventory connections s made in
                (valid, same)))
              (λ s h. record { ports = ports; matching = h.0; same_inventory = h.1 })))))

pub load_model-IsModel :
    (process : Process) (path : String) → Ensures IsModel (load_model process path)
unfolding load_model
load_model-IsModel process path =
    Ensures-skip IsModel (load_yaml process path) model_of (λ file. model_of-IsModel file)
