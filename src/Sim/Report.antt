-- ===== src/Sim/Report.antt =====
-- The reports: G20_Project2_2/src/core/report.c. A text is the list of its characters' codes. The file
-- system is a parameter: mkdir, and to write a file as a whole. A file that cannot be opened is an
-- error; the code does not look at the result of fprintf. How printf rounds a `double` is a parameter.
pub mod Text
pub mod Files
