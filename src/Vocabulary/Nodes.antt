-- ===== src/Vocabulary/Nodes.antt =====
-- The types of nodes and the layers of edges, of frontend/src/lib/vocabulary.ts.
use htn.Prelude.{String, [], ◌∷◌, Dict, lookup, coalesce, string_eq}
use htn.Graph.Topology.{EdgeLayer, mesh, access, oversight}

pub data Plane : Type 0 where
  workload data_plane security : Plane

pub record NodeTypeMeta : Type 0 where
  pub label : String
  pub plural : String
  pub plane : Plane
  pub hint : String

-- `NODE_TYPE_META`
abbrev pub node_type_table : Dict String NodeTypeMeta
node_type_table =
    (
      "agent",
      record {
        label = "Agent";
        plural = "Agents";
        plane = workload;
        hint = "An autonomous actor in the system. Compromise spreads between agents.";
      },
    )
    ∷ (
      "tool",
      record {
        label = "Tool";
        plural = "Tools";
        plane = workload;
        hint = "A callable capability an agent can invoke.";
      },
    )
    ∷ (
      "mcp_server",
      record {
        label = "MCP server";
        plural = "MCP servers";
        plane = workload;
        hint = "A tool-hosting server reachable by agents.";
      },
    )
    ∷ (
      "credential",
      record {
        label = "Credential";
        plural = "Credentials";
        plane = data_plane;
        hint = "A secret an agent holds to unlock access to a resource.";
      },
    )
    ∷ (
      "resource",
      record {
        label = "Resource";
        plural = "Resources";
        plane = data_plane;
        hint = "A protected asset reachable through a credential.";
      },
    )
    ∷ (
      "memory_store",
      record {
        label = "Memory store";
        plural = "Memory stores";
        plane = data_plane;
        hint = "An agent's persistent memory — a poisoning target.";
      },
    )
    ∷ (
      "sentinel",
      record {
        label = "Sentinel";
        plural = "Sentinels";
        plane = security;
        hint = "A monitor watching agents, with authority to quarantine them.";
      },
    )
    ∷ (
      "security_control",
      record {
        label = "Security control";
        plural = "Security controls";
        plane = security;
        hint = "Control-plane service: trust manager, threat memory, attestation, quarantine.";
      },
    )
    ∷ []

unfoldable pub node_type_meta : String → NodeTypeMeta
unfolding lookup
node_type_meta node_type =
    coalesce (lookup node_type node_type_table)
      (record { label = node_type; plural = node_type; plane = workload; hint = "" })

abbrev pub plane_label : Plane → String
plane_label workload = "Workload plane"
plane_label data_plane = "Data plane"
plane_label security = "Security plane"

pub record EdgeLayerMeta : Type 0 where
  pub label : String
  pub hint : String
  pub color : String

abbrev pub edge_layer_meta : EdgeLayer → EdgeLayerMeta
edge_layer_meta mesh = record {
  label = "Communication";
  hint = "Agent-to-agent messaging and trust — the path compromise propagates along.";
  color = "#2b3340";
}
edge_layer_meta access = record {
  label = "Access";
  hint = "Which agents can reach which tools, credentials and resources.";
  color = "#3a4c63";
}
edge_layer_meta oversight = record {
  label = "Oversight";
  hint = "Which sentinels monitor which agents, and who holds quarantine authority.";
  color = "#3d3357";
}
