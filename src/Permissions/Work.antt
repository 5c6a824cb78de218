-- ===== src/Permissions/Work.antt =====
-- Which children of cw04/zad2/zad2.c work, and when.
use agh_so.Permissions.Family.{Family}
