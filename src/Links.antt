-- ===== src/Links.antt =====
-- The static link configuration of common/src/lib.rs.
use Prim.Native.String.{String}
use chainlightning.Base.{ℕ, List, [], ◌∷◌}

abbrev pub num_links : ℕ
num_links = 5

pub data LinkType : Type 0 where
  adsl starlink : LinkType

pub record LinkInfo : Type 0 where
  pub id : ℕ
  pub link_type : LinkType
  pub interface : String
  pub client_bind_ip : String
  pub port : ℕ
  pub expected_bandwidth_down : ℕ
  pub expected_bandwidth_up : ℕ
  pub expected_rtt_ms : ℕ

abbrev pub links : List LinkInfo
links =
    record {
      id = 0;
      link_type = adsl;
      interface = "eth0";
      client_bind_ip = "10.0.0.1";
      port = 50001;
      expected_bandwidth_down = 7_500_000;
      expected_bandwidth_up = 1_375_000;
      expected_rtt_ms = 20;
    }
    ∷ record {
      id = 1;
      link_type = starlink;
      interface = "eth1";
      client_bind_ip = "10.0.1.1";
      port = 50002;
      expected_bandwidth_down = 27_500_000;
      expected_bandwidth_up = 2_500_000;
      expected_rtt_ms = 40;
    }
    ∷ record {
      id = 2;
      link_type = adsl;
      interface = "eth2";
      client_bind_ip = "10.0.2.1";
      port = 50003;
      expected_bandwidth_down = 7_500_000;
      expected_bandwidth_up = 1_375_000;
      expected_rtt_ms = 20;
    }
    ∷ record {
      id = 3;
      link_type = starlink;
      interface = "eth3";
      client_bind_ip = "10.0.3.1";
      port = 50004;
      expected_bandwidth_down = 27_500_000;
      expected_bandwidth_up = 2_500_000;
      expected_rtt_ms = 40;
    }
    ∷ record {
      id = 4;
      link_type = adsl;
      interface = "eth4";
      client_bind_ip = "10.0.4.1";
      port = 50005;
      expected_bandwidth_down = 7_500_000;
      expected_bandwidth_up = 1_375_000;
      expected_rtt_ms = 20;
    }
    ∷ []
