-- ===== src/Socket/Request/Finish.antt =====
-- The end of the answer to a request in `Socket::parse` of src/Socket.cpp.
use istatserverlinux.Prelude.{[], Option, none, some}
use istatserverlinux.Prelude.Int.{ℤ}
use istatserverlinux.Prelude.Outcome.{
  done, deref, Ends, ends_done, Ends-bind, Ends-if, Ends-deref, ends_rules,
}
use istatserverlinux.Text.{Bytes, codes}
use istatserverlinux.Text.Number.{atoi}
use istatserverlinux.Xml.{Node, Nodes, nil, cons, get_prop, has_name, children, Libs}
use istatserverlinux.Conf.{Config}
use istatserverlinux.Clientset.{is_authenticated}
use istatserverlinux.Stats.{Standard, Stats}
use istatserverlinux.Responses.Finish.{
  isr_cpu_data-Ends, isr_memory_data-Ends, isr_loadavg_data-Ends, isr_multiple_data-Ends,
}
use istatserverlinux.Socket.Request.{
  Peer, on_connect, on_hello, on_code, on_data, on_request, parse_root, parse, child_data,
  children_data,
}

module _ (libs : Libs) (standard : Standard) (config : Config) (stats : Stats) where
  child_data-Ends :
      (child : Node) (type : Option Bytes) → Ends (child_data standard stats child type)
  unfolding child_data
  child_data-Ends child none = ends_done _
  child_data-Ends child (some type) = Ends-if _ _ _ (isr_cpu_data-Ends standard stats child) (
      Ends-if _ _ _ (isr_memory_data-Ends standard stats child) (
        Ends-if _ _ _ (isr_loadavg_data-Ends standard stats child) (
          Ends-if _ _ _ (ends_done _)
            (Ends-if _ _ _ (isr_multiple_data-Ends standard type stats child) (ends_done _)))))

  children_data-Ends : (children : Nodes) → Ends (children_data standard stats children)
  unfolding children_data
  children_data-Ends nil = ends_done _
  children_data-Ends (cons child siblings) =
      Ends-bind (child_data standard stats child (get_prop child (codes "type"))) _
        (child_data-Ends child _)
        (λ first.
          Ends-bind (children_data standard stats siblings) _ (children_data-Ends siblings)
            (λ rest. ends_done _))

  on_data-Ends : (cur : Node) (p : Peer) → Ends (on_data libs standard stats cur p)
  unfolding on_data
  on_data-Ends cur p =
      Ends-bind _ _
        (Ends-if (is_authenticated p.clients p.socket.uuid)
          (children_data standard stats (children cur)) (done [])
          (children_data-Ends (children cur)) (ends_done _))
        (λ body. ends_done _)

  on_connect-Ends : (cur : Node) (p : Peer) → Ends (on_connect cur p)
  unfolding on_connect
  on_connect-Ends cur p = search ends_rules

  on_hello-Ends : (cur : Node) (p : Peer) → Ends (on_hello config stats cur p)
  unfolding on_hello
  on_hello-Ends cur p = search ends_rules

  on_code-Ends : (cur : Node) (p : Peer) → Ends (on_code config cur p)
  unfolding on_code
  on_code-Ends cur p = search ends_rules

  on_request-Ends :
      (code : ℤ) (cur : Node) (p : Peer) → Ends (on_request libs standard config stats code cur p)
  unfolding on_request
  on_request-Ends code cur p = Ends-if _ _ _ (on_connect-Ends cur p) (
      Ends-if _ _ _ (on_hello-Ends cur p)
        (Ends-if _ _ _ (on_code-Ends cur p) (Ends-if _ _ _ (on_data-Ends cur p) (ends_done _))))

  parse_root-Ends :
      (root : Option Node) (p : Peer) → Ends (parse_root libs standard config stats root p)
  unfolding parse_root
  parse_root-Ends none p = ends_done _
  parse_root-Ends (some cur) p =
      Ends-if (has_name cur (codes "isr")) _ _
        (Ends-bind (deref (get_prop cur (codes "type"))) _ (Ends-deref _)
          (λ type. on_request-Ends (atoi type) cur p))
        (ends_done _)

  pub parse-Ends : (text : Bytes) (p : Peer) → Ends (parse libs standard config stats text p)
  unfolding parse
  parse-Ends text p = parse_root-Ends (libs.read_memory text) p
