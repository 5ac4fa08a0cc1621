-- ===== src/Sim/Report/Text.antt =====
-- The texts that report.c writes: the formats of fprintf that it uses, the two CSV files, the summary,
-- and the lines for the terminal. `fixed n r` is the double r by the format `%.nf`.
pub mod Reading
use g20_os_lab_project.Common.{
  ℕ, zero, suc, ◌+◌, ◌-◌, ◌*◌, ◌/◌, ◌%◌, ltb, leb, if◌then◌else◌, List, [], ◌∷◌, ◌++◌, ℤ, pos,
  negsuc,
}
use Prim.Native.Char.{code}
use Prim.Native.String.{String}
use g20_os_lab_project.Sim.Parser.{algorithm_kind_name}
use g20_os_lab_project.Sim.Simulation.{Ratio, Timeline, SimulationMetrics, SimulationResult}

abbrev pub codes : String → List ℕ
codes String.[] = []
codes (String.◌∷◌ c s) = code c ∷ codes s

-- The decimal digits of a number, put before a text; more fuel than the number is enough.
unfoldable pub decimal_from : (fuel n : ℕ) → List ℕ → List ℕ
decimal_from zero n rest = rest
decimal_from (suc fuel) n rest =
    let more = decimal_from fuel (n / 10) ((48 + n % 10) ∷ rest) in
    if ltb n 10 then (48 + n) ∷ rest else more

unfoldable pub decimal : ℕ → List ℕ
unfolding decimal_from
decimal n = decimal_from (suc n) n []

-- `%d`
unfoldable pub print_int : ℤ → List ℕ
unfolding decimal
print_int (pos n) = decimal n
print_int (negsuc n) = 45 ∷ decimal (suc n)

-- A text made of parts, and a line of such.
abbrev pub join : List (List ℕ) → List ℕ
join [] = []
join (part ∷ parts) = part ++ join parts

abbrev pub line : List (List ℕ) → List ℕ
line parts = join parts ++ 10 ∷ []

-- The part `f i` for `n` numbers from `i` on, as the loops print them.
unfoldable pub join_range : (ℕ → List ℕ) → (i n : ℕ) → List ℕ
join_range f i zero = []
join_range f i (suc n) = f i ++ join_range f (suc i) n

abbrev pub slot_at : Timeline → (tick cpu : ℕ) → ℤ
slot_at t tick cpu = t.slots (tick * t.cpu_count + cpu)

-- `,P%d` or `,idle`
unfoldable pub cell : ℤ → List ℕ
unfolding decimal
cell (pos pid) = 44 ∷ 80 ∷ decimal pid
cell (negsuc n) = codes ",idle"

unfoldable pub cpu_title : ℕ → List ℕ
unfolding decimal
cpu_title cpu = codes ",cpu" ++ decimal cpu

unfoldable pub timeline_row : Timeline → ℕ → List ℕ
unfolding join_range cell decimal
timeline_row t tick =
    decimal tick ++ (join_range (λ cpu. cell (slot_at t tick cpu)) 0 t.cpu_count ++ 10 ∷ [])

unfoldable pub timeline_csv : Timeline → List ℕ
unfolding timeline_row cpu_title
timeline_csv t =
    codes "tick"
    ++ (join_range cpu_title 0 t.cpu_count ++ (10 ∷ join_range (timeline_row t) 0 t.tick_count))

-- The title line of the metrics, and the line of one simulation.
unfoldable pub metrics_title : List ℕ
metrics_title =
    codes
      "algorithm,cpu_count,total_ticks,completed,avg_waiting,avg_turnaround,avg_response,throughput,cpu_utilization,deadline_misses,migrations"
    ++ 10 ∷ []

module _ (fixed : ℕ → Ratio → List ℕ) where
  unfoldable pub metrics_row : SimulationMetrics → List ℕ
  unfolding decimal
  metrics_row m = line (
      algorithm_kind_name m.algorithm
      ∷ codes ","
      ∷ decimal m.cpu_count
      ∷ codes ","
      ∷ decimal m.total_ticks
      ∷ codes ","
      ∷ decimal m.completed
      ∷ codes ","
      ∷ fixed 2 m.avg_waiting
      ∷ codes ","
      ∷ fixed 2 m.avg_turnaround
      ∷ codes ","
      ∷ fixed 2 m.avg_response
      ∷ codes ","
      ∷ fixed 4 m.throughput
      ∷ codes ","
      ∷ fixed 4 m.cpu_utilization
      ∷ codes ","
      ∷ decimal m.deadline_misses
      ∷ codes ","
      ∷ decimal m.migrations
      ∷ [])

  unfoldable pub metrics_csv : SimulationResult → List ℕ
  unfolding metrics_row
  metrics_csv r = metrics_title ++ metrics_row r.metrics

  unfoldable pub summary : (workload_path : List ℕ) → SimulationResult → List ℕ
  unfolding decimal
  summary workload_path r =
      let m = r.metrics in
      join (
        line (codes "Algorithm: " ∷ algorithm_kind_name m.algorithm ∷ [])
        ∷ line (codes "Workload: " ∷ workload_path ∷ [])
        ∷ line (codes "CPUs: " ∷ decimal m.cpu_count ∷ [])
        ∷ line (codes "Ticks: " ∷ decimal m.total_ticks ∷ [])
        ∷ line (codes "Completed: " ∷ decimal m.completed ∷ [])
        ∷ line (codes "Average waiting time: " ∷ fixed 2 m.avg_waiting ∷ [])
        ∷ line (codes "Average turnaround time: " ∷ fixed 2 m.avg_turnaround ∷ [])
        ∷ line (codes "Average response time: " ∷ fixed 2 m.avg_response ∷ [])
        ∷ line (codes "Throughput: " ∷ fixed 4 m.throughput ∷ [])
        ∷ line (codes "CPU utilization: " ∷ fixed 4 m.cpu_utilization ∷ [])
        ∷ line (codes "Deadline misses: " ∷ decimal m.deadline_misses ∷ [])
        ∷ line (codes "Migrations: " ∷ decimal m.migrations ∷ [])
        ∷ [])

  -- The rows of the comparison, in the order of the results.
  unfoldable pub comparison_rows : List SimulationResult → List ℕ
  unfolding metrics_row
  comparison_rows [] = []
  comparison_rows (r ∷ rs) = metrics_row r.metrics ++ comparison_rows rs

  unfoldable pub comparison_csv : List SimulationResult → List ℕ
  unfolding metrics_title comparison_rows
  comparison_csv rs = metrics_title ++ comparison_rows rs

  unfoldable pub print_metrics : (label : List ℕ) → SimulationMetrics → List ℕ
  unfolding decimal
  print_metrics label m = line (
      label
      ∷ codes ": waiting="
      ∷ fixed 2 m.avg_waiting
      ∷ codes " turnaround="
      ∷ fixed 2 m.avg_turnaround
      ∷ codes " response="
      ∷ fixed 2 m.avg_response
      ∷ codes " throughput="
      ∷ fixed 4 m.throughput
      ∷ codes " util="
      ∷ fixed 4 m.cpu_utilization
      ∷ codes " misses="
      ∷ decimal m.deadline_misses
      ∷ codes " migrations="
      ∷ decimal m.migrations
      ∷ [])

-- A text with blanks after it, up to a width: `%-2d` and `%-3d`.
abbrev pub pad : (width : ℕ) → List ℕ → List ℕ
pad zero text = text
pad (suc width) [] = 32 ∷ pad width []
pad (suc width) (c ∷ text) = c ∷ pad width text

unfoldable pub view_cell : ℤ → List ℕ
unfolding decimal
view_cell (pos pid) = codes " P" ++ pad 2 (decimal pid)
view_cell (negsuc n) = codes " -- "

unfoldable pub view_row : Timeline → ℕ → List ℕ
unfolding view_cell join_range decimal
view_row t cpu =
    codes "CPU"
    ++ (pad 2 (decimal cpu)
        ++ (codes " |"
            ++ (join_range (λ tick. view_cell (slot_at t tick cpu)) 0 t.tick_count ++ 10 ∷ [])))

unfoldable pub print_timeline : (label : List ℕ) → Timeline → List ℕ
unfolding view_row join_range decimal
print_timeline label t =
    (10 ∷ codes "Schedule view for ")
    ++ (label
        ++ (10
            ∷ (join_range (view_row t) 0 t.cpu_count
                ++ (codes "Tick  |"
                    ++ (join_range (λ tick. 32 ∷ pad 3 (decimal tick)) 0 t.tick_count
                        ++ 10 ∷ [])))))
