-- ===== src/Catalog.antt =====
-- SourceCatalog.js: the sources that can be typed.
pub mod Entries
use omarchy_hackertyper.Base.{List, [], ◌∷◌, codes}
use omarchy_hackertyper.Sources.{Source}

unfoldable pub sources : List Source
sources =
    record {
      id = codes "kernel-like";
      name = codes "Kernel";
      language = codes "C";
      description = codes "Event routing and scheduler internals.";
      file = codes "sources/kernel-like.c";
      license = codes "MIT";
      provenance = codes "Project-authored MIT source.";
    }
    ∷ record {
      id = codes "telemetry-engine";
      name = codes "Telemetry Engine";
      language = codes "C++";
      description = codes "Concurrent telemetry aggregation engine.";
      file = codes "sources/telemetry-engine.cpp";
      license = codes "MIT";
      provenance = codes "Project-authored MIT source.";
    }
    ∷ record {
      id = codes "command-coordinator";
      name = codes "Command Coordinator";
      language = codes "C#";
      description = codes "Command lease and event coordination.";
      file = codes "sources/CommandCoordinator.cs";
      license = codes "MIT";
      provenance = codes "Project-authored MIT source.";
    }
    ∷ record {
      id = codes "event-pipeline";
      name = codes "Event Pipeline";
      language = codes "Java";
      description = codes "Ordered event stream pipeline.";
      file = codes "sources/EventPipeline.java";
      license = codes "MIT";
      provenance = codes "Project-authored MIT source.";
    }
    ∷ record {
      id = codes "task-orchestrator";
      name = codes "Task Orchestrator";
      language = codes "TypeScript";
      description = codes "Distributed task orchestration with lease management.";
      file = codes "sources/task-orchestrator.ts";
      license = codes "MIT";
      provenance = codes "Project-authored MIT source.";
    }
    ∷ record {
      id = codes "async-observer";
      name = codes "Async Observer";
      language = codes "Python";
      description = codes "Asynchronous observability collector.";
      file = codes "sources/async-observer.py";
      license = codes "MIT";
      provenance = codes "Project-authored MIT source.";
    }
    ∷ record {
      id = codes "cluster-reconciler";
      name = codes "Cluster Reconciler";
      language = codes "Go";
      description = codes "Cluster desired-state reconciler.";
      file = codes "sources/cluster-reconciler.go";
      license = codes "MIT";
      provenance = codes "Project-authored MIT source.";
    }
    ∷ record {
      id = codes "packet-engine";
      name = codes "Packet Engine";
      language = codes "Rust";
      description = codes "Bounded packet-processing state machine.";
      file = codes "sources/packet-engine.rs";
      license = codes "MIT";
      provenance = codes "Project-authored MIT source.";
    }
    ∷ record {
      id = codes "deploy-coordinator";
      name = codes "Deploy Coordinator";
      language = codes "Ruby";
      description = codes "Deployment waves and health-gate coordination.";
      file = codes "sources/deploy-coordinator.rb";
      license = codes "MIT";
      provenance = codes "Project-authored MIT source.";
    }
    ∷ record {
      id = codes "request-router";
      name = codes "Request Router";
      language = codes "PHP";
      description = codes "API request routing with quotas and cache hints.";
      file = codes "sources/request-router.php";
      license = codes "MIT";
      provenance = codes "Project-authored MIT source.";
    }
    ∷ record {
      id = codes "fleet-bootstrap";
      name = codes "Fleet Bootstrap";
      language = codes "Bash";
      description = codes "Fleet readiness inventory report.";
      file = codes "sources/fleet-bootstrap.sh";
      license = codes "MIT";
      provenance = codes "Project-authored MIT source.";
    }
    ∷ record {
      id = codes "telemetry-lab";
      name = codes "Telemetry Lab";
      language = codes "SQL";
      description = codes "Telemetry retention schema and analysis queries.";
      file = codes "sources/telemetry-lab.sql";
      license = codes "MIT";
      provenance = codes "Project-authored MIT source.";
    }
    ∷ record {
      id = codes "workspace-rules";
      name = codes "Workspace Rules";
      language = codes "Lua";
      description = codes "Workspace and session rule engine.";
      file = codes "sources/workspace-rules.lua";
      license = codes "MIT";
      provenance = codes "Project-authored MIT source.";
    }
    ∷ record {
      id = codes "hacker-typer-ui";
      name = codes "Hacker Typer UI";
      language = codes "QML";
      description = codes "Native terminal overlay implementation.";
      file = codes "HackerTyper.qml";
      license = codes "MIT";
      provenance = codes "Project source.";
    }
    ∷ []
