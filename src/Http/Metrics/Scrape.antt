-- ===== src/Http/Metrics/Scrape.antt =====
-- A scrape while the main thread records events. from_reporter takes the reporter's lock twice, and
-- events may be recorded in between.
use ebpf_system_monitor.Base.{ℕ, ◌+◌, ◌≡◌, List, [], ◌++◌, Text}
use ebpf_system_monitor.Bpf.Events.{TcpEvent}
use ebpf_system_monitor.StatsReporter.{StatsReporter, record_all, connection_count}
use ebpf_system_monitor.StatsReporter.Count.{distinct, keys, connection_count-record_all}
use ebpf_system_monitor.Http.Metrics.{from_reporter_during}
use ebpf_system_monitor.Http.Metrics.Lines.{read_lines}
use ebpf_system_monitor.Http.Metrics.Connections.{
  AllPlain, head_lines, connection_lines, read_lines-from_reporter_during,
}

-- If events are recorded between the two times that from_reporter takes the lock, and no name of a
-- process and no address that is then listed has a line break, a scraper gets the number of the
-- connections from before those events, and the samples of the connections from after them: that
-- number is too small by the new connections of the events, each counted once.
pub scrape_lags :
    (inet_ntop : ℕ → Text) (now : ℕ) (r : StatsReporter) (evs : List TcpEvent)
    → AllPlain inet_ntop (record_all evs r)
    → (read_lines (from_reporter_during inet_ntop now r (record_all evs r)) []
        ≡ head_lines inet_ntop now r ++ connection_lines inet_ntop now (record_all evs r))
      × (connection_count (record_all evs r) ≡ distinct (keys r) evs + connection_count r)
scrape_lags inet_ntop now r evs plain = (
  read_lines-from_reporter_during inet_ntop now r (record_all evs r) plain,
  connection_count-record_all evs r,
)
